-- ===== src/Forwarder/Start.antt =====
-- cmd/log-forwarder/main.go: the program up to the follower's loop.
use audit_logging.Common.{Bool, true, false}
use audit_logging.Common.Int.{scale_int64}
use audit_logging.Text.{Text}
use audit_logging.Server.Model.{Error, Result, ok, err}
use audit_logging.Client.{Client, new}
use audit_logging.Client.Delay.{JitterStrategy, milliseconds}
use audit_logging.Forwarder.Config.{Config, World, load_config}
use audit_logging.Forwarder.Parser.{Reader, LineParser, new_line_parser}
use audit_logging.Forwarder.Metrics.{new_runtime_metrics}
use audit_logging.Forwarder.Handler.{State}

-- the client with the settings
unfoldable pub client_of : Config → Client
client_of cfg = record (new cfg.server_url) {
  auth_token = cfg.auth_bearer_token;
  retry = record {
    max_attempts = cfg.retry_max_attempts;
    initial_backoff = scale_int64 1000000 cfg.retry_initial_backoff_ms;
    max_backoff = scale_int64 1000000 cfg.retry_max_backoff_ms;
    max_jitter = milliseconds 100;
    jitter_strategy = JitterStrategy.full;
  };
}

-- How the start ends: log.Fatalf, the end of --validate-only, or the follower's loop with its parser and
-- the state of the callback.
pub data Started : Type 0 where
  fatal_exit : Error → Started
  validated : Started
  following : Config → LineParser → State → Started

with_parser : Config → Text → Result LineParser → Started
with_parser cfg letters (err e) = fatal_exit e
with_parser cfg letters (ok p) =
    following cfg p
      (record { client = client_of cfg; metrics = new_runtime_metrics; dead_letters = letters })

-- `validated` before a parser is made
start_with : Reader → Bool → Result Config → Text → Started
unfolding with_parser
start_with r validate_only (err e) letters = fatal_exit e
start_with r true (ok cfg) letters = validated
start_with r false (ok cfg) letters = with_parser cfg letters (new_line_parser r cfg)

-- main up to the follower, with the dead letters that are in their file
unfoldable pub start : World → Reader → Bool → Text → Text → Started
unfolding start_with
start w r validate_only config_path letters =
    start_with r validate_only (load_config r.unicode w config_path) letters
