-- ===== src/Forwarder/Handler.antt =====
-- cmd/log-forwarder/main.go: what the program does with each line that the follower hands on.
pub mod Trace
pub mod Stored
pub mod Laws
use audit_logging.Common.{ℕ, [], List, ◌∷◌, Option, none, some, length}
use audit_logging.Common.Int.{ℤ}
use audit_logging.Text.{Text}
use audit_logging.Server.Model.{Error, Result, ok, err}
use audit_logging.Client.{Client, World, Run, LogRequest, LogResponse}
use audit_logging.Forwarder.Checkpoint.{Checkpoint, Files, Codec, Calls, save_checkpoint}
use audit_logging.Forwarder.Follower.{TailEvent, Sink}
use audit_logging.Forwarder.Parser.{Reader, LineParser, NormalizedEvent, parse}
use audit_logging.Forwarder.Delivery.{
  Letters, build_payload, key_of, keyed, deliver_parsed_event, write_dead_letter,
}
use audit_logging.Forwarder.Metrics.{
  RuntimeMetrics, inc_lines_read, inc_parsed_ok, inc_parse_failed, inc_delivery_success,
  inc_delivery_failed, inc_dead_letter_writes, inc_retries, mark_idempotency_key,
}

-- The state that the callback changes: the client's headers, the metrics, and the dead-letter file.
pub record State : Type 0 where
  pub client : Client
  pub metrics : RuntimeMetrics
  pub dead_letters : Text

-- The parser and the digest, and for each event the network and the calls of the operating system.
pub record Env : Type 0 where
  pub reader : Reader
  pub parser : LineParser
  pub digest : Text → List ℕ
  pub network : TailEvent → World
  pub letters : TailEvent → Letters

module _ (v : Env) (event : TailEvent) where
  -- a delivery that failed, with what WriteDeadLetter gives
  unfoldable pub lettered : State → Option Error × Text → Option Error × State
  lettered s (some e, file) = (some e, record s { dead_letters = file })
  lettered s (none, file) =
      (none, record s { dead_letters = file; metrics = inc_dead_letter_writes s.metrics })

  -- what follows the delivery
  unfoldable pub answered :
      NormalizedEvent → LogRequest → State → Result LogResponse → Option Error × State
  unfolding lettered
  answered parsed payload s (ok out) = (none, record s { metrics = inc_delivery_success s.metrics })
  answered parsed payload s (err e) =
      lettered (record s { metrics = inc_delivery_failed s.metrics })
        (write_dead_letter (v.letters event) payload parsed.source_file parsed.source_offset e
          s.dead_letters)

  -- an event that was parsed; OnRetry is called once for each delay
  unfoldable pub delivered : NormalizedEvent → State → Option Error × State
  unfolding answered
  delivered parsed s =
      let key = key_of v.digest parsed in
      let run = deliver_parsed_event v.digest (v.network event) s.client parsed in
      answered parsed (build_payload parsed key)
        (record s {
          client = keyed s.client key;
          metrics = inc_retries (length run.delays) (mark_idempotency_key key s.metrics);
        })
        run.result

  unfoldable pub parsed_line : State → Result NormalizedEvent → Option Error × State
  unfolding delivered
  parsed_line s (err e) = (none, record s { metrics = inc_parse_failed s.metrics })
  parsed_line s (ok parsed) = delivered parsed (record s { metrics = inc_parsed_ok s.metrics })

  -- the callback
  unfoldable pub handle_line : State → Option Error × State
  unfolding parsed_line
  handle_line s =
      parsed_line (record s { metrics = inc_lines_read s.metrics }) (parse v.reader v.parser event)

-- All that the run of the program changes: the callback's state and the checkpoint's files.
pub record Machine : Type 0 where
  pub state : State
  pub files : Files

-- What main gives to the follower's Run: the callback, with the saving of the checkpoint.
unfoldable pub sink : Env → Codec → (Checkpoint → Calls) → (Machine → Text) → Sink Machine
sink v c calls now = record {
  on_line = λ ev m. let r = handle_line v ev m.state in (r.0, record m { state = r.1 });
  save = λ path cp m.
      let r = save_checkpoint c (calls cp) cp m.files in (r.error, record m { files = r.files });
  now = now;
}
