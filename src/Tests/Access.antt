-- ===== src/Tests/Access.antt =====
-- Tokens, the registry and the routes, run.
use audit_logging.Common.{[], List, ◌∷◌, ◌≡◌, ◌⊎◌, refl, none, arith}
use audit_logging.Text.{Text, codes, equal}
use audit_logging.Text.Space.{trim_space, is_space}
use audit_logging.Text.Hex.{hex_encode}
use audit_logging.Text.Base64.{base64_encode}
use audit_logging.Server.Model.{ok, err, unauthorized}
use audit_logging.Server.Auth.{
  IsTokenPair, format_token, parse_token, parse_token-format_token, valid_role, new_client_id,
  new_secret, hash_secret,
}
use audit_logging.Server.Registry.{
  Row, RegistryEnv, register, revoke, rotate, authenticate, find_row, insert_row, update_active,
  count_active,
}
use audit_logging.Text.Split.{split_n}
use audit_logging.Server.Codec.{sha256_hex}
use audit_logging.Server.Chain.Tamper.{Collision}
use audit_logging.Server.Registry.Rotation.{rotate-authenticate}
use audit_logging.Server.Registry.Laws.{IsFilled, register-authenticate, revoke-authenticate}
use audit_logging.Tests.Toy.{toy}

-- A secret with a separator in it.
pair-IsTokenPair : IsTokenPair (codes "0f") (codes "a_b")
unfolding is_space
pair-IsTokenPair = record {
  id_filled = λ h. cc h;
  id_clean = (refl, (refl, tt));
  id_whole = omega arith;
  secret_filled = λ h. cc h;
  secret_clean = (refl, (refl, (refl, tt)));
}

abbrev pub env : RegistryEnv
env = record {
  id_bytes = ok (15 ∷ []);
  secret_bytes = ok (105 ∷ 191 ∷ 219 ∷ []);
  now = 7;
  exec_error = none;
  affected_error = none;
}

abbrev quote : Text → Text
quote s = s

pub id_bytes-IsFilled : IsFilled env.id_bytes
id_bytes-IsFilled = record {
  buffer = 15 ∷ [];
  read = refl;
  bytes = omega arith;
  filled = λ h. cc h;
}

pub secret_bytes-IsFilled : IsFilled env.secret_bytes
secret_bytes-IsFilled = record {
  buffer = 105 ∷ 191 ∷ 219 ∷ [];
  read = refl;
  bytes = omega arith;
  filled = λ h. cc h;
}

abbrev table : List Row
table = (register toy quote env [] (codes " web ") []).1

registered :
    register toy quote env [] (codes " web ") []
    ≡ (ok (codes "0f", format_token (codes "0f") (codes "ab_b")), table)
unfolding register trim_space valid_role equal new_client_id new_secret hex_encode base64_encode
    insert_row find_row
registered = refl

register-authenticate_example :
    authenticate toy quote none table (format_token (codes "0f") (codes "ab_b"))
    ≡ ok (record {
      client_id = codes "0f";
      name = trim_space (codes " web ");
      role = codes "client";
    })
unfolding trim_space
register-authenticate_example =
    register-authenticate toy quote env [] table (codes " web ") [] (codes "0f")
      (format_token (codes "0f") (codes "ab_b")) id_bytes-IsFilled secret_bytes-IsFilled registered

abbrev revoked : List Row
revoked = (revoke toy quote env table (codes "0f")).1

did_revoke : revoke toy quote env table (codes "0f") ≡ (ok [], revoked)
unfolding register revoke trim_space valid_role equal new_client_id new_secret hex_encode
    base64_encode insert_row find_row update_active count_active
did_revoke = refl

trimmed :
    parse_token (format_token (codes "0f") (codes "a_b"))
    ≡ ok (trim_space (codes "0f"), codes "a_b")
unfolding trim_space
trimmed = parse_token-format_token (codes "0f") (codes "a_b") pair-IsTokenPair

revoke-authenticate_example :
    authenticate toy quote none revoked (format_token (codes "0f") (codes "a_b")) ≡ err unauthorized
revoke-authenticate_example =
    revoke-authenticate toy quote env table revoked (codes "0f") []
      (format_token (codes "0f") (codes "a_b")) (codes "a_b") did_revoke trimmed

abbrev rotated : List Row
rotated = (rotate toy quote env table (codes "0f")).1

did_rotate :
    rotate toy quote env table (codes "0f")
    ≡ (ok (format_token (codes "0f") (codes "ab_b")), rotated)
unfolding register rotate trim_space valid_role equal new_client_id new_secret hex_encode
    base64_encode insert_row find_row update_active count_active
did_rotate = refl

new_pair-IsTokenPair : IsTokenPair (codes "0f") (codes "ab_b")
unfolding is_space
new_pair-IsTokenPair = record {
  id_filled = λ h. cc h;
  id_clean = (refl, (refl, tt));
  id_whole = omega arith;
  secret_filled = λ h. cc h;
  secret_clean = (refl, (refl, (refl, (refl, tt))));
}

new_token :
    parse_token (format_token (codes "0f") (codes "ab_b"))
    ≡ ok (trim_space (codes "0f"), codes "ab_b")
unfolding trim_space
new_token = parse_token-format_token (codes "0f") (codes "ab_b") new_pair-IsTokenPair

accepted :
    authenticate toy quote none rotated (format_token (codes "0f") (codes "ab_b"))
    ≡ ok (record { client_id = codes "0f"; name = codes "web"; role = codes "client" })
unfolding register rotate authenticate parse_token format_token split_n trim_space valid_role equal
    new_client_id new_secret hex_encode base64_encode insert_row find_row update_active count_active
    hash_secret sha256_hex
accepted = refl

rotate-authenticate_example :
    (codes "ab_b" ≡ base64_encode secret_bytes-IsFilled.buffer) ⊎ Collision toy
rotate-authenticate_example =
    rotate-authenticate toy quote env table rotated (codes "0f")
      (format_token (codes "0f") (codes "ab_b")) (format_token (codes "0f") (codes "ab_b"))
      (codes "ab_b") (record { client_id = codes "0f"; name = codes "web"; role = codes "client" })
      secret_bytes-IsFilled did_rotate new_token accepted
