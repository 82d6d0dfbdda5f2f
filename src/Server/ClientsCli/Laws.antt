-- ===== src/Server/ClientsCli/Laws.antt =====
-- cmd/server/clients_cli.go: exit codes, and what they say of the registry.
use audit_logging.Common.{
  ℕ, ◌≤◌, [], List, ◌∷◌, ◌++◌, ◌≡◌, refl, Bool-cases, Option-cases, Bool, if◌then◌else◌, Option,
  none, some, inl, inr, arith, true, false,
}
use audit_logging.Text.{Text, codes, is_empty, equal}
use audit_logging.Text.Space.{trim_space}
use audit_logging.Server.Model.{Error, Result, ok, err}
use audit_logging.Server.Codec.{Codec}
use audit_logging.Server.Auth.{ClientSummary, Principal, role_client}
use audit_logging.Server.Registry.{Row, list, register, rotate, revoke, authenticate}
use audit_logging.Server.Registry.Laws.{IsFilled, register-authenticate}
use audit_logging.Server.ClientsCli.{
  CliWorld, Outcome, exit, registered, register_with, clients_register, flushed, line, listed,
  clients_list, with_id, rotated, clients_rotate, revoked_by, clients_revoke, clients_handler,
  dispatch, run_clients_cli, is_clients_command, open_registry, run_clients_command,
}

-- The exit codes 0, 1 and 2, the last of which leaves the registry alone.
pub record IsGraded (t : List Row) (o : Outcome) : Type 0 where
  pub small : o.code ≤ 2
  pub untouched : o.code ≡ 2 → o.rows ≡ t

exit-IsGraded : (n : ℕ) (out : Text) (t : List Row) → n ≤ 2 → IsGraded t (exit n out t)
exit-IsGraded n out t h = record { small = h; untouched = λ _. refl }

done-IsGraded : (n : ℕ) (out : Text) (t t' : List Row) → n ≤ 1 → IsGraded t (exit n out t')
done-IsGraded n out t t' h = record {
  small = omega arith;
  untouched = λ e. absurd (omega (arith, h, e));
}

-- No subcommand, or one that is unknown.
unfoldable pub IsUsageError : Codec → CliWorld → List Text → Type 0
IsUsageError c w [] = Unit
IsUsageError c w (name ∷ args) = is_clients_command c w name ≡ false

module _ (c : Codec) (w : CliWorld) where
  registered-IsGraded :
      (t : List Row) (printed : Text) (r : Result (Text × Text) × List Row)
      → IsGraded t (registered c w printed r)
  unfolding registered
  registered-IsGraded t printed (err e, t') = done-IsGraded 1 _ t t' (omega arith)
  registered-IsGraded t printed (ok (id, token), t') = done-IsGraded 0 _ t t' (omega arith)

  register-IsGraded :
      (t : List Row) (p : Option (Text → Text) × Text) → IsGraded t (register_with c w t p)
  unfolding register_with
  register-IsGraded t (none, printed) = exit-IsGraded 2 printed t (omega arith)
  register-IsGraded t (some values, printed) =
      elim (Bool-cases (is_empty (trim_space (values (codes "name"))))) [
        | inl h ↦ rw h (exit-IsGraded 2 _ t (omega arith))
        | inr h ↦ rw h (registered-IsGraded t printed _)
      ]

  flushed-IsGraded : (t : List Row) (p : Text × Option Error) → IsGraded t (flushed c w t p)
  unfolding flushed
  flushed-IsGraded t (printed, some e) = exit-IsGraded 1 _ t (omega arith)
  flushed-IsGraded t (printed, none) = exit-IsGraded 0 _ t (omega arith)

  listed-IsGraded : (t : List Row) (r : Result (List ClientSummary)) → IsGraded t (listed c w t r)
  unfolding listed
  listed-IsGraded t (err e) = exit-IsGraded 1 _ t (omega arith)
  listed-IsGraded t (ok []) = exit-IsGraded 0 _ t (omega arith)
  listed-IsGraded t (ok (s ∷ ss)) = flushed-IsGraded t _

  with_id-IsGraded :
      (t : List Row) (next : Text → Text → Outcome) (p : Option (Text → Text) × Text)
      (graded : (id printed : Text) → IsGraded t (next id printed))
      → IsGraded t (with_id c w t next p)
  unfolding with_id
  with_id-IsGraded t next (none, printed) graded = exit-IsGraded 2 printed t (omega arith)
  with_id-IsGraded t next (some values, printed) graded =
      elim (Bool-cases (is_empty (trim_space (values (codes "id"))))) [
        | inl h ↦ rw h (exit-IsGraded 2 _ t (omega arith))
        | inr h ↦ rw h (graded (values (codes "id")) printed)
      ]

  rotated-IsGraded :
      (t : List Row) (printed : Text) (r : Result Text × List Row)
      → IsGraded t (rotated c w printed r)
  unfolding rotated
  rotated-IsGraded t printed (err e, t') = done-IsGraded 1 _ t t' (omega arith)
  rotated-IsGraded t printed (ok token, t') = done-IsGraded 0 _ t t' (omega arith)

  revoked_by-IsGraded :
      (t : List Row) (id printed : Text) (r : Result Text × List Row)
      → IsGraded t (revoked_by c w id printed r)
  unfolding revoked_by
  revoked_by-IsGraded t id printed (err e, t') = done-IsGraded 1 _ t t' (omega arith)
  revoked_by-IsGraded t id printed (ok token, t') = done-IsGraded 0 _ t t' (omega arith)

  -- What a handler that may be there does.
  Graded : List Row → List Text → Option (List Row → List Text → Outcome) → Type 0
  Graded t args none = Unit
  Graded t args (some handler) = IsGraded t (handler t args)

  clients_register-IsGraded :
      (t : List Row) (args : List Text) → IsGraded t (clients_register c w t args)
  unfolding clients_register
  clients_register-IsGraded t args = register-IsGraded t (
      w.parse (codes "clients register") ((codes "name", []) ∷ (codes "role", role_client) ∷ [])
        args)

  clients_list-IsGraded : (t : List Row) → IsGraded t (clients_list c w t)
  unfolding clients_list
  clients_list-IsGraded t = listed-IsGraded t (list w.list_error t)

  clients_rotate-IsGraded :
      (t : List Row) (args : List Text) → IsGraded t (clients_rotate c w t args)
  unfolding clients_rotate
  clients_rotate-IsGraded t args =
      with_id-IsGraded t (λ id. λ printed. rotated c w printed (rotate c w.quote w.registry t id))
        (w.parse (codes "clients rotate") ((codes "id", []) ∷ []) args)
        (λ id. λ printed. rotated-IsGraded t printed (rotate c w.quote w.registry t id))

  clients_revoke-IsGraded :
      (t : List Row) (args : List Text) → IsGraded t (clients_revoke c w t args)
  unfolding clients_revoke
  clients_revoke-IsGraded t args =
      with_id-IsGraded t
        (λ id. λ printed. revoked_by c w id printed (revoke c w.quote w.registry t id))
        (w.parse (codes "clients revoke") ((codes "id", []) ∷ []) args)
        (λ id. λ printed. revoked_by-IsGraded t id printed (revoke c w.quote w.registry t id))

  handler-Graded :
      (t : List Row) (name : Text) (args : List Text) → Graded t args (clients_handler c w name)
  unfolding clients_handler Graded
  handler-Graded t name args = elim (Bool-cases (equal name (codes "register"))) [
    | inl h ↦ rw h (clients_register-IsGraded t args)
    | inr h ↦ elim (Bool-cases (equal name (codes "list"))) [
      | inl k ↦ rw (h, k) (clients_list-IsGraded t)
      | inr k ↦ elim (Bool-cases (equal name (codes "rotate"))) [
        | inl l ↦ rw (h, k, l) (clients_rotate-IsGraded t args)
        | inr l ↦ elim (Bool-cases (equal name (codes "revoke"))) [
          | inl m ↦ rw (h, k, l, m) (clients_revoke-IsGraded t args)
          | inr m ↦ rw (h, k, l, m) tt
        ]
      ]
    ]
  ]

  dispatch-IsGraded :
      (t : List Row) (name : Text) (args : List Text) (o : Option (List Row → List Text → Outcome))
      → Graded t args o
      → IsGraded t (dispatch c w t name args o)
  unfolding dispatch Graded
  dispatch-IsGraded t name args none h = exit-IsGraded 2 _ t (omega arith)
  dispatch-IsGraded t name args (some handler) h = h

  run_clients_cli-IsGraded :
      (t : List Row) (args : List Text) → IsGraded t (run_clients_cli c w t args)
  unfolding run_clients_cli
  run_clients_cli-IsGraded t [] = exit-IsGraded 2 _ t (omega arith)
  run_clients_cli-IsGraded t (name ∷ args) =
      dispatch-IsGraded t name args (clients_handler c w name) (handler-Graded t name args)

  -- The clients command ends with the code 0, 1 or 2, and with 2 the registry is as it was; without a
  -- subcommand, or with one that there is none of, the code is 2 whether or not the database has a URL
  -- or can be opened.
  pub run_clients_command-IsGraded :
      (url : Text) (open_error ping_error store_error : Option Error) (t : List Row)
      (args : List Text)
      → IsGraded t (run_clients_command c w url open_error ping_error store_error t args)
        × (IsUsageError c w args
            → (run_clients_command c w url open_error ping_error store_error t args).code ≡ 2)
  unfolding run_clients_command IsUsageError
  run_clients_command-IsGraded url open_error ping_error store_error t [] =
      (exit-IsGraded 2 _ t (omega arith), λ h. refl)
  run_clients_command-IsGraded url open_error ping_error store_error t (name ∷ args) =
      elim (Bool-cases (is_clients_command c w name)) [
        | inr h ↦ rw h (exit-IsGraded 2 _ t (omega arith), λ k. refl)
        | inl h ↦ elim (Option-cases (open_registry c w url open_error ping_error store_error)) [
          | inr (m, g) ↦ rw (h, g) (exit-IsGraded 1 _ t (omega arith), λ k. absurd cc)
          | inl g ↦ rw (h, g) (run_clients_cli-IsGraded t (name ∷ args), λ k. absurd cc)
        ]
      ]

  -- What a successful registration prints, with the token that is accepted.
  unfoldable pub Printed : Outcome → Type 0
  Printed o =
      (id : Text) × (token : Text) × (p : Principal) × (before : Text) × (after : Text) × (o.out
        ≡ before
          ++ (line (codes "client id: " ++ id) ++ (line (codes "token:     " ++ token) ++ after)))
      × (p.client_id ≡ id)
      × (authenticate c w.quote none o.rows token ≡ ok p)

  registered-Printed :
      (t : List Row) (printed name role : Text) (id_bytes : IsFilled w.registry.id_bytes)
      (secret_bytes : IsFilled w.registry.secret_bytes) (r : Result (Text × Text) × List Row)
      → register c w.quote w.registry t name role ≡ r
      → (registered c w printed r).code ≡ 0
      → Printed (registered c w printed r)
  unfolding registered Printed
  registered-Printed t printed name role f g (err e, t') h k = absurd (omega (arith, k))
  registered-Printed t printed name role f g (ok (id, token), t') h k = (
    id,
    token,
    _,
    printed,
    _,
    refl,
    refl,
    register-authenticate c w.quote w.registry t t' name role id token f g h,
  )

  choice-Printed :
      (b : Bool) (o o' : Outcome)
      → o.code ≡ 2
      → (o'.code ≡ 0 → Printed o')
      → (if b then o else o').code ≡ 0
      → Printed (if b then o else o')
  choice-Printed true o o' k next h = absurd (omega (arith, k, h))
  choice-Printed false o o' k next h = next h

  register_with-Printed :
      (t : List Row) (id_bytes : IsFilled w.registry.id_bytes)
      (secret_bytes : IsFilled w.registry.secret_bytes) (p : Option (Text → Text) × Text)
      → (register_with c w t p).code ≡ 0
      → Printed (register_with c w t p)
  unfolding register_with
  register_with-Printed t f g (none, printed) h = absurd (omega (arith, h))
  register_with-Printed t f g (some values, printed) h =
      choice-Printed (is_empty (trim_space (values (codes "name")))) _ _ refl
        (registered-Printed t printed (values (codes "name")) (values (codes "role")) f g
          (register c w.quote w.registry t (values (codes "name")) (values (codes "role"))) refl)
        h

  -- If the register command ends with the code 0, it has printed a client's id and a token, and the
  -- service accepts that token as that client's, provided the random source gives bytes.
  pub clients_register-Printed :
      (t : List Row) (args : List Text) (id_bytes : IsFilled w.registry.id_bytes)
      (secret_bytes : IsFilled w.registry.secret_bytes)
      (success : (clients_register c w t args).code ≡ 0)
      → Printed (clients_register c w t args)
  unfolding clients_register
  clients_register-Printed t args f g success = register_with-Printed t f g _ success
