-- ===== src/Server/Registry.antt =====
-- PostgresClientStore of cmd/server/clientstore_postgres.go: the table audit_clients as the list of
-- its rows, and the statements that the store sends, each by what it does to them.
pub mod Table
pub mod Laws
pub mod Rotation
pub mod Open
use audit_logging.Common.{
  ℕ, ◌+◌, [], List, ◌∷◌, ◌++◌, Bool, true, false, not, ◌&&◌, ◌||◌, Option, none, some, ◌==◌, leb,
  if◌then◌else◌, map,
}
use audit_logging.Text.{Text, codes, is_empty, equal}
use audit_logging.Text.Space.{trim_space}
use audit_logging.Server.Model.{Error, unauthorized, failure, Result, ok, err, ◌>>=◌}
use audit_logging.Server.Codec.{Codec}
use audit_logging.Server.Auth.{
  Principal, ClientSummary, role_client, valid_role, new_client_id, new_secret, format_token,
  parse_token, hash_secret,
}

pub record Row : Type 0 where
  pub client_id : Text
  pub name : Text
  pub token_hash : Text
  pub role : Text
  pub created_at : ℕ
  pub revoked_at : Option ℕ

abbrev pub is_revoked : Row → Bool
is_revoked r = elim r.revoked_at [ none ↦ false | some at ↦ true ]

-- SELECT … WHERE client_id = $1
unfoldable pub find_row : Text → List Row → Option Row
find_row id [] = none
find_row id (r ∷ t) = let rest = find_row id t in if equal r.client_id id then some r else rest

-- WHERE client_id = $1 AND revoked_at IS NULL
abbrev pub is_active : Text → Row → Bool
is_active id r = equal r.client_id id && not (is_revoked r)

-- UPDATE … SET …, and the number of rows that it changes
unfoldable pub update_active : Text → (Row → Row) → List Row → List Row
update_active id set t = map (λ r. if is_active id r then set r else r) t

unfoldable pub count_active : Text → List Row → ℕ
count_active id [] = 0
count_active id (r ∷ t) = let rest = count_active id t in if is_active id r then 1 + rest else rest

abbrev pub duplicate_key : Error
duplicate_key = failure (codes "duplicate key value violates unique constraint")

-- INSERT, which the primary key refuses for an id that is there
unfoldable pub insert_row : Row → List Row → Result (List Row)
insert_row r t = elim (find_row r.client_id t) [
  | none ↦ ok (t ++ r ∷ [])
  | some other ↦ err duplicate_key
]

-- 64 zeros, the width of a hashed secret
abbrev pub dummy_token_hash : Text
dummy_token_hash = codes "0000000000000000000000000000000000000000000000000000000000000000"

-- What the world answers: the random bytes, the clock, and the errors of a statement and of
-- RowsAffected.
pub record RegistryEnv : Type 0 where
  pub id_bytes : Result (List ℕ)
  pub secret_bytes : Result (List ℕ)
  pub now : ℕ
  pub exec_error : Option Error
  pub affected_error : Option Error

-- what is left of an Exec: its error, or the table that it makes
abbrev pub exec : Option Error → Result (List Row) → Result (List Row)
exec (some e) t = err e
exec none t = t

-- the table behind a failed or a successful statement, with the answer
abbrev pub settle : List Row → Text × Text → Result (List Row) → Result (Text × Text) × List Row
settle t answer (err e) = (err e, t)
settle t answer (ok t') = (ok answer, t')

-- an empty role is the client's
abbrev pub role_or_client : Text → Text
role_or_client role = if is_empty role then role_client else role

-- `quote` is the verb %q.
module _ (c : Codec) (quote : Text → Text) where
  -- the comparison, which runs whether there is a row or not
  pub check_secret : Text → Text → Option Row → Result Principal
  check_secret id secret none =
      let match = equal (hash_secret c secret) dummy_token_hash in err unauthorized
  check_secret id secret (some r) =
      let match = equal (hash_secret c secret) r.token_hash in
      if is_revoked r || not match
      then err unauthorized
      else ok (record { client_id = id; name = r.name; role = r.role })

  -- the row that the query finds, unless the query fails
  look_up : Option Error → List Row → Text × Text → Result Principal
  unfolding check_secret
  look_up (some e) t pair = err e
  look_up none t (id, secret) = check_secret id secret (find_row id t)

  unfoldable pub authenticate : Option Error → List Row → Text → Result Principal
  unfolding look_up
  authenticate query_error t token = parse_token token >>= look_up query_error t

  -- Register, once the name and the role are accepted
  store_client :
      RegistryEnv
      → List Row
      → Text
      → Text
      → Result Text
      → Result Text
      → Result (Text × Text) × List Row
  store_client env t name role (err e) secret = (err e, t)
  store_client env t name role (ok id) (err e) = (err e, t)
  store_client env t name role (ok id) (ok secret) =
      settle t (id, format_token id secret)
        (exec env.exec_error (
          insert_row
            (record {
              client_id = id;
              name = name;
              token_hash = hash_secret c secret;
              role = role;
              created_at = env.now;
              revoked_at = none;
            })
            t))

  unfoldable pub register : RegistryEnv → List Row → Text → Text → Result (Text × Text) × List Row
  unfolding store_client
  register env t name role =
      let name = trim_space name in
      let role = role_or_client (trim_space role) in
      if is_empty name
      then (err (failure (codes "client name is required")), t)
      else if not (valid_role role)
      then (
        err (
            failure
              (codes "invalid role " ++ (quote role ++ codes ": must be \"client\" or \"admin\""))),
        t,
      )
      else store_client env t name role (new_client_id env.id_bytes) (new_secret env.secret_bytes)

  -- an UPDATE of the active row of a client, and the answer by the number of rows that it changed
  update_client : RegistryEnv → List Row → Text → (Row → Row) → Text → Result Text × List Row
  update_client env t id set answer = elim env.exec_error [
    | some e ↦ (err e, t)
    | none ↦
        let t' = update_active id set t in
        elim env.affected_error [
          | some e ↦ (err e, t')
          | none ↦
              if count_active id t == 0
              then (err (failure (codes "no active client with id " ++ quote id)), t')
              else (ok answer, t')
        ]
  ]

  -- Rotate, once there is an id
  rotate_to : RegistryEnv → List Row → Text → Result Text → Result Text × List Row
  unfolding update_client
  rotate_to env t id (err e) = (err e, t)
  rotate_to env t id (ok secret) =
      update_client env t id (λ r. record r { token_hash = hash_secret c secret })
        (format_token id secret)

  unfoldable pub rotate : RegistryEnv → List Row → Text → Result Text × List Row
  unfolding rotate_to
  rotate env t client_id =
      let id = trim_space client_id in
      if is_empty id
      then (err (failure (codes "client id is required")), t)
      else rotate_to env t id (new_secret env.secret_bytes)

  -- Revoke; its answer carries no text.
  unfoldable pub revoke : RegistryEnv → List Row → Text → Result Text × List Row
  unfolding update_client
  revoke env t client_id =
      let id = trim_space client_id in
      if is_empty id
      then (err (failure (codes "client id is required")), t)
      else update_client env t id (λ r. record r { revoked_at = some env.now }) []

abbrev summary_of : Row → ClientSummary
summary_of r = record {
  client_id = r.client_id;
  name = r.name;
  role = r.role;
  created_at = r.created_at;
  revoked = is_revoked r;
}

-- ORDER BY created_at ASC
insert_by_age : Row → List Row → List Row
insert_by_age r [] = r ∷ []
insert_by_age r (s ∷ t) =
    let rest = insert_by_age r t in if leb r.created_at s.created_at then r ∷ s ∷ t else s ∷ rest

by_age : List Row → List Row
unfolding insert_by_age
by_age [] = []
by_age (r ∷ t) = insert_by_age r (by_age t)

-- List
unfoldable pub list : Option Error → List Row → Result (List ClientSummary)
unfolding by_age
list (some e) t = err e
list none t = ok (map summary_of (by_age t))
