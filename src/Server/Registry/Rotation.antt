-- ===== src/Server/Registry/Rotation.antt =====
-- What Rotate does to the tokens of a client.
use audit_logging.Common.{ℕ, List, ◌≡◌, refl, sym, ap, ◌∙◌, true, Option, none, some, ◌⊎◌, arith}
use audit_logging.Text.{Text, equal}
use audit_logging.Text.Equal.{equal_iff}
use audit_logging.Text.Space.{trim_space}
use audit_logging.Text.Base64.{base64_encode}
use audit_logging.Server.Model.{ok}
use audit_logging.Server.Codec.{Codec}
use audit_logging.Server.Chain.Tamper.{Collision, digest_cases}
use audit_logging.Server.Auth.{Principal, parse_token, hash_secret, new_secret}
use audit_logging.Server.Registry.{
  Row, RegistryEnv, find_row, update_active, check_secret, rotate_to, update_client, authenticate,
  rotate,
}
use audit_logging.Server.Registry.Table.{touch, find_row-update_active}
use audit_logging.Server.Registry.Laws.{IsFilled, made_secret, authenticate_lem, find_row-equal}

module _ (c : Codec) (quote : Text → Text) where
  -- The setter of Rotate.
  abbrev with_hash : Text → Row → Row
  with_hash secret r = record r { token_hash = hash_secret c secret }

  check_secret-rotated :
      (id s secret : Text) (o : Option Row) (p : Principal)
      → ((r : Row) → o ≡ some r → equal r.client_id id ≡ true)
      → check_secret c quote id s (touch id (with_hash secret) o) ≡ ok p
      → hash_secret c s ≡ hash_secret c secret
  unfolding check_secret
  check_secret-rotated id s secret none p f h = absurd cc
  check_secret-rotated id s secret (some r) p f h = rotated_cases r.revoked_at refl
    where
      rotated_cases : (o : Option ℕ) → r.revoked_at ≡ o → hash_secret c s ≡ hash_secret c secret
      rotated_cases none e =
          ground (arith, f r refl, equal_iff (hash_secret c s) (hash_secret c secret))
      rotated_cases (some at) e = ground (arith, f r refl)

  rotate_table :
      (env : RegistryEnv) (t t' : List Row) (client_id secret token : Text)
      → new_secret env.secret_bytes ≡ ok secret
      → rotate c quote env t client_id ≡ (ok token, t')
      → t' ≡ update_active (trim_space client_id) (with_hash secret) t
  unfolding rotate rotate_to update_client
  rotate_table env t t' client_id secret token e h = ground arith

  -- Once Rotate has succeeded, no token of that client is accepted but one that carries the new
  -- secret; any other would show two texts with one hash.
  pub rotate-authenticate :
      (env : RegistryEnv) (t t' : List Row) (client_id token other secret : Text) (p : Principal)
      (f : IsFilled env.secret_bytes)
      → rotate c quote env t client_id ≡ (ok token, t')
      → parse_token other ≡ ok (trim_space client_id, secret)
      → authenticate c quote none t' other ≡ ok p
      → (secret ≡ base64_encode f.buffer) ⊎ Collision c
  unfolding hash_secret
  rotate-authenticate env t t' client_id token other secret p f h k a =
      let id = trim_space client_id in
      let new = base64_encode f.buffer in
      digest_cases c secret new (
        check_secret-rotated id secret new (find_row id t) p (find_row-equal c quote id t) (
          sym (
            ap (check_secret c quote id secret) (
              ap (find_row id) (rotate_table env t t' client_id new token (made_secret f) h)
              ∙ find_row-update_active id id (with_hash new) t (λ r. refl)))
          ∙ sym (authenticate_lem c quote t' other id secret k)
          ∙ a))
