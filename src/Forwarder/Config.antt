-- ===== src/Forwarder/Config.antt =====
-- cmd/log-forwarder/config.go: the settings of the forwarder, their defaults and their validation.
pub mod Laws
use audit_logging.Common.{
  [], List, ◌∷◌, ◌++◌, ◌≡◌, refl, subst, Bool, true, false, not, ◌&&◌, ◌||◌, Option, none, some,
  arith, if◌then◌else◌, All, Bool-cases, inl, inr,
}
use audit_logging.Common.Int.{ℤ, pos, ltb_ℤ, leb_ℤ}
use audit_logging.Text.{Text, codes, is_empty, equal}
use audit_logging.Text.Space.{trim_space}
use audit_logging.Text.Fold.{Unicode, to_lower, to_upper}
use audit_logging.Server.Model.{
  error_text, failure, Result, ok, err, ◌>>=◌, bind-eq-ok, ok_injective,
}

pub record Config : Type 0 where
  pub server_url : Text
  pub auth_bearer_token : Text
  pub source_file : Text
  pub app_name : Text
  pub timestamp_field : Text
  pub parser_mode : Text
  pub regex_pattern : Text
  pub default_level : Text
  pub poll_interval_ms : ℤ
  pub batch_size : ℤ
  pub flush_interval_ms : ℤ
  pub checkpoint_path : Text
  pub retry_max_attempts : ℤ
  pub retry_initial_backoff_ms : ℤ
  pub retry_max_backoff_ms : ℤ
  pub request_timeout_ms : ℤ
  pub dead_letter_path : Text
  pub metrics_port : ℤ
  pub metrics_report_interval_ms : ℤ
  pub verify_interval_ms : ℤ

-- What the settings are judged by: the file with the settings and its decoding, the functions of
-- path/filepath, the scheme and the host that url.Parse finds, the message of regexp.Compile's error,
-- and what os.Stat says of a file, whether it is a directory.
pub record World : Type 0 where
  pub read : Text → Result Config
  pub dir : Text → Text
  pub join : Text → Text → Text
  pub abs : Text → Result Text
  pub parse_url : Text → Option (Text × Text)
  pub compile_error : Text → Option Text
  pub stat : Text → Option Text × Bool

abbrev positive_or : ℤ → ℤ → ℤ
positive_or n fallback = if leb_ℤ n (pos 0) then fallback else n

abbrev pub filled_or : Text → Text → Text
filled_or s fallback = if is_empty s then fallback else s

module _ (u : Unicode) (w : World) where
  -- the settings before the paths are made absolute
  with_defaults : Config → Text → Config
  with_defaults c config_path =
      let config_dir = w.dir config_path in
      record {
        server_url = trim_space c.server_url;
        auth_bearer_token = trim_space c.auth_bearer_token;
        source_file = trim_space c.source_file;
        app_name = trim_space c.app_name;
        timestamp_field = trim_space c.timestamp_field;
        parser_mode = filled_or (to_lower u (trim_space c.parser_mode)) (codes "custom");
        regex_pattern = trim_space c.regex_pattern;
        default_level = filled_or (to_upper u (trim_space c.default_level)) (codes "INFO");
        poll_interval_ms = positive_or c.poll_interval_ms (pos 250);
        batch_size = positive_or c.batch_size (pos 1);
        flush_interval_ms = positive_or c.flush_interval_ms (pos 1000);
        checkpoint_path =
            filled_or (trim_space c.checkpoint_path)
              (w.join config_dir (codes "log-forwarder.checkpoint.json"));
        retry_max_attempts = positive_or c.retry_max_attempts (pos 5);
        retry_initial_backoff_ms = positive_or c.retry_initial_backoff_ms (pos 200);
        retry_max_backoff_ms = positive_or c.retry_max_backoff_ms (pos 5000);
        request_timeout_ms = positive_or c.request_timeout_ms (pos 10000);
        dead_letter_path =
            filled_or (trim_space c.dead_letter_path)
              (w.join config_dir (codes "log-forwarder.deadletter.jsonl"));
        metrics_port = c.metrics_port;
        metrics_report_interval_ms = positive_or c.metrics_report_interval_ms (pos 30000);
        verify_interval_ms = positive_or c.verify_interval_ms (pos 60000);
      }

  -- a path made absolute, with the name of the setting in front of an error
  resolved : Text → Result Text → Result Text
  resolved what (ok path) = ok path
  resolved what (err e) = err (failure (what ++ (codes ": " ++ error_text e)))

  unfoldable pub apply_defaults : Config → Text → Result Config
  unfolding with_defaults resolved
  apply_defaults c config_path =
      let d = with_defaults c config_path in
      (if is_empty d.source_file
        then ok []
        else resolved (codes "resolve source_file path") (w.abs d.source_file))
      >>= λ source_file.
          resolved (codes "resolve checkpoint_path") (w.abs d.checkpoint_path)
          >>= λ checkpoint_path.
              resolved (codes "resolve dead_letter_path") (w.abs d.dead_letter_path)
              >>= λ dead_letter_path. ok (record d {
                source_file = source_file;
                checkpoint_path = checkpoint_path;
                dead_letter_path = dead_letter_path;
              })

  abbrev pub bad_url : Option (Text × Text) → Bool
  bad_url none = true
  bad_url (some (scheme, host)) = is_empty scheme || is_empty host

  abbrev pub is_some : Option Text → Bool
  is_some none = false
  is_some (some s) = true

  abbrev text_or_empty : Option Text → Text
  text_or_empty none = []
  text_or_empty (some s) = s

  -- the checks of Validate, each with what it says
  checks : Config → List (Bool × Text)
  checks c =
      let is_regex = equal c.parser_mode (codes "regex") in
      let known =
        equal c.parser_mode (codes "json") || is_regex || equal c.parser_mode (codes "custom") in
      let (stat_error, is_dir) = w.stat c.source_file in
      (is_empty c.server_url, codes "server_url is required")
      ∷ (
        not (is_empty c.server_url) && bad_url (w.parse_url c.server_url),
        codes "server_url must be a valid absolute URL",
      )
      ∷ (is_empty c.auth_bearer_token, codes "auth_bearer_token is required")
      ∷ (is_empty c.source_file, codes "source_file is required")
      ∷ (is_empty c.app_name, codes "app_name is required")
      ∷ (is_empty c.timestamp_field, codes "timestamp_field is required")
      ∷ (leb_ℤ c.poll_interval_ms (pos 0), codes "poll_interval_ms must be > 0")
      ∷ (leb_ℤ c.batch_size (pos 0), codes "batch_size must be > 0")
      ∷ (leb_ℤ c.flush_interval_ms (pos 0), codes "flush_interval_ms must be > 0")
      ∷ (leb_ℤ c.retry_max_attempts (pos 0), codes "retry_max_attempts must be > 0")
      ∷ (leb_ℤ c.retry_initial_backoff_ms (pos 0), codes "retry_initial_backoff_ms must be > 0")
      ∷ (
        ltb_ℤ c.retry_max_backoff_ms c.retry_initial_backoff_ms,
        codes "retry_max_backoff_ms must be >= retry_initial_backoff_ms",
      )
      ∷ (leb_ℤ c.request_timeout_ms (pos 0), codes "request_timeout_ms must be > 0")
      ∷ (
        ltb_ℤ c.metrics_port (pos 0) || ltb_ℤ (pos 65535) c.metrics_port,
        codes "metrics_port must be between 0 and 65535",
      )
      ∷ (leb_ℤ c.metrics_report_interval_ms (pos 0), codes "metrics_report_interval_ms must be > 0")
      ∷ (leb_ℤ c.verify_interval_ms (pos 0), codes "verify_interval_ms must be > 0")
      ∷ (not known, codes "parser_mode must be one of: json, regex, custom")
      ∷ (
        is_regex && is_empty c.regex_pattern,
        codes "regex_pattern is required when parser_mode=regex",
      )
      ∷ (
        is_regex && not (is_empty c.regex_pattern) && is_some (w.compile_error c.regex_pattern),
        codes "regex_pattern is invalid: " ++ text_or_empty (w.compile_error c.regex_pattern),
      )
      ∷ (
        not (is_empty c.source_file) && is_some stat_error,
        codes "source_file is not accessible: " ++ text_or_empty stat_error,
      )
      ∷ (
        not (is_empty c.source_file) && not (is_some stat_error) && is_dir,
        codes "source_file must be a file, not a directory",
      )
      ∷ []

-- The problems that are found, and how they are joined.
found : List (Bool × Text) → List Text
found [] = []
found ((b, s) ∷ cs) = let rest = found cs in if b then s ∷ rest else rest

joined : List Text → Text
joined [] = []
joined (s ∷ []) = s
joined (s ∷ t ∷ ss) = s ++ (codes "; " ++ joined (t ∷ ss))

-- the error, if there is a problem
judge : Config → List Text → Result Config
unfolding joined
judge c [] = ok c
judge c (s ∷ ss) = err (failure (codes "invalid config: " ++ joined (s ∷ ss)))

-- Validate, with the settings that it was asked about as its answer
unfoldable pub validate : Unicode → World → Config → Result Config
unfolding checks found judge
validate u w c = judge c (found (checks u w c))

unfoldable pub load_config : Unicode → World → Text → Result Config
load_config u w path =
    let p = trim_space path in
    let loaded = w.read p >>= λ c. apply_defaults u w c p >>= validate u w in
    if is_empty p then err (failure (codes "config path is required")) else loaded
