-- ===== src/Server/Auth.antt =====
-- Roles, principals and tokens of cmd/server/auth.go.
use audit_logging.Common.{
  ℕ, [], List, ◌∷◌, ◌++◌, ◌≡◌, ◌≢◌, refl, ap, ◌∙◌, Bool, false, not, ◌||◌, arith, if◌then◌else◌,
  leb, length, take, drop, All-append,
}
use audit_logging.Text.{Text, codes, is_empty, equal}
use audit_logging.Text.Equal.{equal_refl, Lacks}
use audit_logging.Text.Space.{is_space, NoSpace, trim_space, trim_space-NoSpace}
use audit_logging.Text.Fold.{Unicode, equal_fold}
use audit_logging.Text.Split.{split_n, split_n-append}
use audit_logging.Text.Base64.{base64_encode}
use audit_logging.Text.Hex.{hex_encode}
use audit_logging.Server.Model.{unauthorized, Result, ok, err, ◌>>=◌, LogQuery}
use audit_logging.Server.Codec.{Codec, sha256_hex}
use audit_logging.Server.Query.{Values}

abbrev pub role_client : Text
role_client = codes "client"

abbrev pub role_admin : Text
role_admin = codes "admin"

abbrev token_prefix : Text
token_prefix = codes "alog"

pub record Principal : Type 0 where
  pub client_id : Text
  pub name : Text
  pub role : Text

unfoldable pub is_admin : Principal → Bool
is_admin p = equal p.role role_admin

-- What `List` shows of a client; `created_at` is an instant.
pub record ClientSummary : Type 0 where
  pub client_id : Text
  pub name : Text
  pub role : Text
  pub created_at : ℕ
  pub revoked : Bool

unfoldable pub valid_role : Text → Bool
valid_role role = equal role role_client || equal role role_admin

-- newClientID and newSecret, on what rand.Read put into their buffers of 8 and of 32 bytes.
unfoldable pub new_client_id : Result (List ℕ) → Result Text
new_client_id random = random >>= λ buf. ok (hex_encode buf)

unfoldable pub new_secret : Result (List ℕ) → Result Text
new_secret random = random >>= λ buf. ok (base64_encode buf)

unfoldable pub format_token : Text → Text → Text
format_token client_id secret = token_prefix ++ (b'_' ∷ (client_id ++ (b'_' ∷ secret)))

-- the test of parseToken on the parts
accept_parts : List Text → Result (Text × Text)
accept_parts (prefix ∷ client_id ∷ secret ∷ []) =
    if not (equal prefix token_prefix) || is_empty client_id || is_empty secret
    then err unauthorized
    else ok (client_id, secret)
accept_parts _ = err unauthorized

unfoldable pub parse_token : Text → Result (Text × Text)
unfolding accept_parts
parse_token token = accept_parts (split_n 2 b'_' (trim_space token))

unfoldable pub hash_secret : Codec → Text → Text
hash_secret c secret = sha256_hex c secret

-- bearerToken. The header is cut at a byte; the seven bytes of an accepted scheme are ASCII.
unfoldable pub bearer_token : Unicode → Text → Text
bearer_token u authorization =
    let header = trim_space authorization in
    if leb (length header) 7 || not (equal_fold u (take 7 header) (codes "bearer "))
    then []
    else trim_space (drop 7 header)

unfoldable pub scope_query : LogQuery → Principal → Values → LogQuery
scope_query query principal values =
    if is_admin principal
    then record query { client_id = trim_space (values (codes "clientId")) }
    else record query { client_id = principal.client_id }

-- A client id and a secret as the registry makes them.
pub record IsTokenPair (client_id secret : Text) : Type 0 where
  pub id_filled : client_id ≢ []
  pub id_clean : NoSpace client_id
  pub id_whole : Lacks b'_' client_id
  pub secret_filled : secret ≢ []
  pub secret_clean : NoSpace secret

format_token-NoSpace :
    (client_id secret : Text)
    → IsTokenPair client_id secret
    → NoSpace (format_token client_id secret)
unfolding format_token is_space
format_token-NoSpace client_id secret k =
    All-append (λ c. is_space c ≡ false) (token_prefix ++ b'_' ∷ []) (client_id ++ (b'_' ∷ secret))
      (refl, (refl, (refl, (refl, (refl, tt)))))
      (All-append (λ c. is_space c ≡ false) client_id (b'_' ∷ secret) k.id_clean
        (refl, k.secret_clean))

is_empty_of_ne : (s : Text) → s ≢ [] → is_empty s ≡ false
is_empty_of_ne [] h = absurd (h refl)
is_empty_of_ne (c ∷ s) h = refl

split_token :
    (client_id secret : Text)
    → IsTokenPair client_id secret
    → split_n 2 b'_' (format_token client_id secret) ≡ token_prefix ∷ client_id ∷ secret ∷ []
unfolding format_token
split_token client_id secret k =
    split_n-append 1 b'_' token_prefix (client_id ++ (b'_' ∷ secret)) (omega arith)
    ∙ ap (◌∷◌ token_prefix)
        (split_n-append 0 b'_' client_id secret k.id_whole ∙ unfold split_n in refl)

accept_parts_lem :
    (client_id secret : Text)
    → IsTokenPair client_id secret
    → accept_parts (token_prefix ∷ client_id ∷ secret ∷ []) ≡ ok (client_id, secret)
unfolding accept_parts
accept_parts_lem client_id secret k =
    rw (equal_refl token_prefix)
      (rw (is_empty_of_ne client_id k.id_filled) (rw (is_empty_of_ne secret k.secret_filled) refl))

-- A token is read back as the pair that it was made of, separators in its secret included.
pub parse_token-format_token :
    (client_id secret : Text)
    → IsTokenPair client_id secret
    → parse_token (format_token client_id secret) ≡ ok (client_id, secret)
unfolding parse_token
parse_token-format_token client_id secret k =
    ap (λ (t : Text). accept_parts (split_n 2 b'_' t))
      (trim_space-NoSpace _ (format_token-NoSpace client_id secret k))
    ∙ ap accept_parts (split_token client_id secret k)
    ∙ accept_parts_lem client_id secret k
