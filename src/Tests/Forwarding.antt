-- ===== src/Tests/Forwarding.antt =====
-- Two lines, parsed, delivered to a service and accounted for.
use audit_logging.Common.{ℕ, [], ◌∷◌, ◌≡◌, refl, arith, ◌⊎◌, false, none}
use audit_logging.Common.Int.{pos}
use audit_logging.Text.{codes, is_empty}
use audit_logging.Text.Space.{trim_space}
use audit_logging.Text.Fold.{ascii_only}
use audit_logging.Server.Model.{failure, ok, err}
use audit_logging.Client
use audit_logging.Client.{new}
use audit_logging.Forwarder.Follower.{TailEvent, Ran}
use audit_logging.Forwarder.Follower.Changes.{run_polls}
use audit_logging.Forwarder.Follower.Changes.Laws.{IsSound, ran, at_offset-Consistent, zero-IsInt64}
use audit_logging.Forwarder.Parser.{Reader, LineParser, NormalizedEvent, parse}
use audit_logging.Forwarder.Parser.Laws.{Carries, line_of, parse-Carries}
use audit_logging.Forwarder.Delivery.{Letters, compute_idempotency_key}
use audit_logging.Forwarder.Delivery.Laws.{KeyCollision, compute_idempotency_key-injective}
use audit_logging.Forwarder.Metrics.{new_runtime_metrics}
use audit_logging.Forwarder.Handler.{Env, Machine, sink}
use audit_logging.Forwarder.Handler.Trace.{Trace}
use audit_logging.Forwarder.Handler.Laws.{Accounted, run_polls-Accounted}
use audit_logging.Tests.Clients.{loaded}
use audit_logging.Tests.Follower.{codec, calm, no_files, quiet, start, no_line}

-- Lines that are no JSON.
abbrev reader : Reader
reader = record {
  unicode = ascii_only;
  text_of = λ bytes. bytes;
  unmarshal = λ s. none;
  compile = λ s. err (failure (codes "no patterns"));
}

abbrev parser : LineParser
parser = record { cfg = loaded; compiled = none }

abbrev event : TailEvent
event = record {
  line = codes " hello ";
  source_file = codes "f";
  committed_offset = pos 8;
  read_at = codes "T";
}

has_level : is_empty loaded.default_level ≡ false
has_level = refl

parse-Carries_example :
    ((x : NormalizedEvent)
      → parse reader parser event ≡ ok x
      → Carries reader parser event (line_of reader parser event) x)
    × (loaded.parser_mode ≡ codes "custom"
        → (x : NormalizedEvent) × (parse reader parser event ≡ ok x))
parse-Carries_example = parse-Carries reader parser event has_level

-- A service that is away.
abbrev away : Client.World
away = record {
  marshal = λ p. ok p.message;
  unmarshal = λ s. err (failure (codes "none"));
  request_error = none;
  answer = λ attempt sent. Client.failed (failure (codes "refused"));
  random = λ attempt n. 0;
  sleep = λ attempt delay. none;
}

abbrev letters : Letters
letters = record {
  mkdir = none;
  now = codes "T";
  marshal = λ x. ok x.error;
  open_error = none;
  write = none;
}

abbrev env : Env
env = record {
  reader = reader;
  parser = parser;
  digest = λ s. [];
  network = λ ev. away;
  letters = λ ev. letters;
}

abbrev machine : Machine
machine = record {
  state = record { client = new []; metrics = new_runtime_metrics; dead_letters = [] };
  files = no_files;
}

sound : IsSound {S = Machine} (ran none start machine)
sound = record {
  consistent = at_offset-Consistent _ (pos 0) zero-IsInt64;
  is_open = λ _. refl;
  no_line = λ _. no_line;
}

abbrev after_run : Ran Machine
after_run =
    run_polls (sink env codec (λ cp. calm) (λ m. codes "T")) loaded (quiet ∷ []) start machine

run_polls-Accounted_example :
    Accounted 0 after_run.stopped after_run.state.state.metrics
    × Trace env machine.state after_run.state.state
run_polls-Accounted_example =
    run_polls-Accounted env codec (λ cp. calm) (λ m. codes "T") loaded (quiet ∷ []) start machine
      sound (refl, refl, refl)

-- Two prints of one line.
keys :
    compute_idempotency_key (λ s. s) (codes "a") (codes "f") (pos 3) (codes " x")
    ≡ compute_idempotency_key (λ s. s) (codes "a") (codes "f") (pos 3) (codes "x ")
unfolding compute_idempotency_key trim_space
keys = refl

compute_idempotency_key-injective_example :
    ((◌≡◌ {A = ℕ} 3 3) × (trim_space (codes " x") ≡ trim_space (codes "x ")))
    ⊎ KeyCollision (λ s. s)
compute_idempotency_key-injective_example =
    compute_idempotency_key-injective (λ s. s) (codes "a") (codes "f") (codes " x") (codes "x ") 3 3
      (omega arith) (omega arith) keys
