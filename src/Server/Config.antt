-- ===== src/Server/Config.antt =====
-- Config, loadConfig, getEnv and ListenAddr of cmd/server/main.go, and envInt of cmd/server/query.go.
use audit_logging.Common.{[], ◌∷◌, ◌++◌, ◌≡◌, refl, true, Option, none, some, arith, if◌then◌else◌}
use audit_logging.Common.Int.{ℤ, pos, negsuc, leb_ℤ}
use audit_logging.Text.{Text, codes, is_empty}
use audit_logging.Text.Space.{trim_space}
use audit_logging.Text.Fold.{Unicode, to_lower}
use audit_logging.Text.Decimal.{NumError, parse_int, format_int}
use audit_logging.Server.Query.{QueryLimits, default_query_limits}
use audit_logging.Server.Query.Bounds.{IsPositive}

pub record Config : Type 0 where
  pub port : ℤ
  pub bind_addr : Text
  pub storage_backend : Text
  pub database_url : Text
  pub log_file : Text
  pub max_payload_bytes : ℤ
  pub query : QueryLimits

-- os.Getenv is the function `env`: a variable that is not set is the empty text.
unfoldable pub get_env : (Text → Text) → Text → Text → Text
get_env env key fallback =
    let value = trim_space (env key) in if is_empty value then fallback else value

-- what envInt makes of what Atoi returned
accept_positive : ℤ → ℤ × Option NumError → ℤ
accept_positive fallback (parsed, some e) = fallback
accept_positive fallback (parsed, none) = if leb_ℤ parsed (pos 0) then fallback else parsed

unfoldable pub env_int : (Text → Text) → Text → ℤ → ℤ
unfolding accept_positive
env_int env key fallback = accept_positive fallback (parse_int (trim_space (get_env env key [])))

-- a number whose error is dropped, and that must be positive
abbrev positive_or : ℤ → ℤ × Option NumError → ℤ
positive_or fallback (n, e) = if leb_ℤ n (pos 0) then fallback else n

-- loadConfig; `join` is filepath.Join.
unfoldable pub load_config : Unicode → (Text → Text → Text) → (Text → Text) → Config
load_config u join env =
    let data_dir = get_env env (codes "DATA_DIR") (codes "data") in
    record {
      port = positive_or (pos 8080) (parse_int (get_env env (codes "PORT") (codes "8080")));
      bind_addr = get_env env (codes "BIND_ADDR") [];
      storage_backend = to_lower u (get_env env (codes "STORAGE_BACKEND") (codes "file"));
      database_url = get_env env (codes "DATABASE_URL") [];
      log_file = get_env env (codes "LOG_FILE") (join data_dir (codes "audit.log.jsonl"));
      max_payload_bytes =
          positive_or (pos 32768)
            (parse_int (get_env env (codes "MAX_PAYLOAD_BYTES") (codes "32768")));
      query = record {
        default_limit =
            env_int env (codes "DEFAULT_QUERY_LIMIT") default_query_limits.default_limit;
        max_limit = env_int env (codes "MAX_QUERY_LIMIT") default_query_limits.max_limit;
        max_offset = env_int env (codes "MAX_QUERY_OFFSET") default_query_limits.max_offset;
      };
    }

unfoldable pub listen_addr : Config → Text
listen_addr c = c.bind_addr ++ (b':' ∷ format_int c.port)

-- A number that is kept is at least one.
kept_positive :
    (fallback n : ℤ)
    → leb_ℤ (pos 1) fallback ≡ true
    → leb_ℤ (pos 1) (if leb_ℤ n (pos 0) then fallback else n) ≡ true
kept_positive fallback (negsuc n) h = h
kept_positive fallback (pos n) h = ground arith

positive_or-positive :
    (fallback : ℤ) (r : ℤ × Option NumError)
    → leb_ℤ (pos 1) fallback ≡ true
    → leb_ℤ (pos 1) (positive_or fallback r) ≡ true
positive_or-positive fallback (n, e) h = kept_positive fallback n h

accept_positive-positive :
    (fallback : ℤ) (r : ℤ × Option NumError)
    → leb_ℤ (pos 1) fallback ≡ true
    → leb_ℤ (pos 1) (accept_positive fallback r) ≡ true
unfolding accept_positive
accept_positive-positive fallback (n, some e) h = h
accept_positive-positive fallback (n, none) h = kept_positive fallback n h

env_int-positive :
    (env : Text → Text) (key : Text) (fallback : ℤ)
    → leb_ℤ (pos 1) fallback ≡ true
    → leb_ℤ (pos 1) (env_int env key fallback) ≡ true
unfolding env_int
env_int-positive env key fallback h =
    accept_positive-positive fallback (parse_int (trim_space (get_env env key []))) h

pub record IsUsable (c : Config) : Type 0 where
  pub port : leb_ℤ (pos 1) c.port ≡ true
  pub max_payload_bytes : leb_ℤ (pos 1) c.max_payload_bytes ≡ true
  pub query : IsPositive c.query

-- Whatever the environment says, the port, the payload limit and the three query limits that the
-- server runs with are positive.
pub load_config-IsUsable :
    (u : Unicode) (join : Text → Text → Text) (env : Text → Text)
    → IsUsable (load_config u join env)
unfolding load_config
load_config-IsUsable u join env = record {
  port =
      positive_or-positive (pos 8080) (parse_int (get_env env (codes "PORT") (codes "8080"))) refl;
  max_payload_bytes =
      positive_or-positive (pos 32768)
        (parse_int (get_env env (codes "MAX_PAYLOAD_BYTES") (codes "32768"))) refl;
  query = record {
    default_limit = env_int-positive env _ (pos 50) refl;
    max_limit = env_int-positive env _ (pos 500) refl;
    max_offset = env_int-positive env _ (pos 10000) refl;
  };
}
