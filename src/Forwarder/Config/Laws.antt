-- ===== src/Forwarder/Config/Laws.antt =====
-- What LoadConfig accepts.
use audit_logging.Common.{
  [], List, ◌∷◌, ◌≡◌, refl, subst, Bool, true, false, ◌||◌, arith, Option, none, some, All,
  Bool-cases, inl, inr,
}
use audit_logging.Common.Int.{pos, ltb_ℤ, leb_ℤ}
use audit_logging.Text.{Text, codes, is_empty, equal}
use audit_logging.Text.Space.{trim_space}
use audit_logging.Text.Fold.{Unicode}
use audit_logging.Server.Model.{ok, ◌>>=◌, bind-eq-ok, ok_injective}
use audit_logging.Forwarder.Config.{
  Config, World, bad_url, is_some, checks, found, judge, apply_defaults, validate, load_config,
}

judge-eq-ok : (c d : Config) (ss : List Text) → judge c ss ≡ ok d → (c ≡ d) × (ss ≡ [])
unfolding judge
judge-eq-ok c d [] h = (ok_injective h, refl)
judge-eq-ok c d (s ∷ ss) h = absurd cc

found-nil : (cs : List (Bool × Text)) → found cs ≡ [] → All (λ p. p.0 ≡ false) cs
unfolding found
found-nil [] h = tt
found-nil ((true, s) ∷ cs) h = absurd cc
found-nil ((false, s) ∷ cs) h = (refl, found-nil cs h)

-- Settings that the forwarder can run with.
pub record IsValid (w : World) (c : Config) : Type 0 where
  pub server_url : is_empty c.server_url ≡ false
  pub absolute_url :
      (scheme : Text) × (host : Text) × (w.parse_url c.server_url ≡ some (scheme, host))
      × (is_empty scheme ≡ false)
      × (is_empty host ≡ false)
  pub auth_bearer_token : is_empty c.auth_bearer_token ≡ false
  pub source_file : is_empty c.source_file ≡ false
  pub app_name : is_empty c.app_name ≡ false
  pub timestamp_field : is_empty c.timestamp_field ≡ false
  pub poll_interval_ms : leb_ℤ c.poll_interval_ms (pos 0) ≡ false
  pub batch_size : leb_ℤ c.batch_size (pos 0) ≡ false
  pub flush_interval_ms : leb_ℤ c.flush_interval_ms (pos 0) ≡ false
  pub retry_max_attempts : leb_ℤ c.retry_max_attempts (pos 0) ≡ false
  pub retry_initial_backoff_ms : leb_ℤ c.retry_initial_backoff_ms (pos 0) ≡ false
  pub retry_max_backoff_ms : ltb_ℤ c.retry_max_backoff_ms c.retry_initial_backoff_ms ≡ false
  pub request_timeout_ms : leb_ℤ c.request_timeout_ms (pos 0) ≡ false
  pub metrics_port :
      (ltb_ℤ c.metrics_port (pos 0) ≡ false) × (ltb_ℤ (pos 65535) c.metrics_port ≡ false)
  pub metrics_report_interval_ms : leb_ℤ c.metrics_report_interval_ms (pos 0) ≡ false
  pub verify_interval_ms : leb_ℤ c.verify_interval_ms (pos 0) ≡ false
  pub parser_mode :
      (equal c.parser_mode (codes "json")
        || equal c.parser_mode (codes "regex")
        || equal c.parser_mode (codes "custom"))
      ≡ true
  pub regex_pattern :
      equal c.parser_mode (codes "regex") ≡ true
      → (is_empty c.regex_pattern ≡ false) × (w.compile_error c.regex_pattern ≡ none)
  pub is_file : w.stat c.source_file ≡ (none, false)

module _ (u : Unicode) (w : World) where
  url_cases :
      (o : Option (Text × Text))
      → bad_url u w o ≡ false
      → (scheme : Text) × (host : Text) × (o ≡ some (scheme, host))
        × (is_empty scheme ≡ false)
        × (is_empty host ≡ false)
  url_cases none h = absurd cc
  url_cases (some (scheme, host)) h = (scheme, host, refl, ground arith, ground arith)

  not_some : (o : Option Text) → is_some u w o ≡ false → o ≡ none
  not_some none h = refl
  not_some (some s) h = absurd cc

  file_cases : (p : Option Text × Bool) → is_some u w p.0 ≡ false → p.1 ≡ false → p ≡ (none, false)
  file_cases (none, false) h g = refl
  file_cases (none, true) h g = absurd cc
  file_cases (some s, b) h g = absurd cc

validate-IsValid : (u : Unicode) (w : World) (c d : Config) → validate u w c ≡ ok d → IsValid w d
unfolding validate checks
validate-IsValid u w c d h =
    let (same, none_found) = judge-eq-ok c d _ h in
    let (
      a0,
      (
        a1,
        (
          a2,
          (
            a3,
            (
              a4,
              (
                a5,
                (
                  a6,
                  (
                    a7,
                    (
                      a8,
                      (
                        a9,
                        (
                          a10,
                          (a11, (a12, (a13, (a14, (a15, (a16, (a17, (a18, (a19, (a20, _)))))))))),
                        ),
                      ),
                    ),
                  ),
                ),
              ),
            ),
          ),
        ),
      ),
    ) =
      found-nil (checks u w c) none_found in
    subst (IsValid w) same (record {
      server_url = a0;
      absolute_url = url_cases u w (w.parse_url c.server_url) (ground arith);
      auth_bearer_token = a2;
      source_file = a3;
      app_name = a4;
      timestamp_field = a5;
      poll_interval_ms = a6;
      batch_size = a7;
      flush_interval_ms = a8;
      retry_max_attempts = a9;
      retry_initial_backoff_ms = a10;
      retry_max_backoff_ms = a11;
      request_timeout_ms = a12;
      metrics_port = (ground arith, ground arith);
      metrics_report_interval_ms = a14;
      verify_interval_ms = a15;
      parser_mode = ground arith;
      regex_pattern =
          λ e. (ground arith, not_some u w (w.compile_error c.regex_pattern) (ground arith));
      is_file = file_cases u w (w.stat c.source_file) (ground arith) (ground arith);
    })

-- Whatever the file says, settings that LoadConfig accepts are such settings: the required texts are
-- there, the URL has a scheme and a host, the source file is a file, the intervals, sizes, attempts and timeouts
-- are positive, the longest backoff is no shorter than the first, the port is one, the parser mode is one of the
-- three, and in the mode "regex" the pattern is there and compiles.
pub load_config-IsValid :
    (u : Unicode) (w : World) (path : Text) (c : Config) → load_config u w path ≡ ok c → IsValid w c
unfolding load_config
load_config-IsValid u w path c h =
    let p = trim_space path in
    elim (Bool-cases (is_empty p)) [
      | inl e ↦ absurd (ground arith)
      | inr e ↦
          let (raw, _, h1) =
            bind-eq-ok (w.read p) (λ c. apply_defaults u w c p >>= validate u w) (ground arith) in
          let (d, _, h2) = bind-eq-ok (apply_defaults u w raw p) (validate u w) h1 in
          validate-IsValid u w d c h2
    ]
