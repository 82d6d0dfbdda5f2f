-- ===== src/Tests/Clients.antt =====
-- The client, the forwarder's settings and the Postgres store, run.
use audit_logging.Common.{
  ◌∷◌, arith, [], List, ◌++◌, ◌≡◌, ◌↔◌, refl, false, none, some, ◌==◌, if◌then◌else◌, true,
}
use audit_logging.Common.Int.{pos}
use audit_logging.Text.{codes, equal}
use audit_logging.Text.Space.{trim_space}
use audit_logging.Text.Fold.{ascii_only, to_lower, to_upper}
use audit_logging.Server.Model.{failure, ok, VerifyResult}
use audit_logging.Server.Chain.{genesis}
use audit_logging.Server.PostgresStore.{EntryRow, TxEnv, append, by_index, verify}
use audit_logging.Server.PostgresStore.Laws.{IsTable, whole_result, verify_iff}
use audit_logging.Client.{
  LogRequest, LogResponse, Client, failed, answered, World, new, write_log, attempts, step,
  normalize_retry, should_retry_status,
}
use audit_logging.Client.Laws.{Accepted, write_log-Accepted}
use audit_logging.Forwarder.Config
use audit_logging.Forwarder.Config.{load_config, validate, apply_defaults}
use audit_logging.Forwarder.Config.Laws.{IsValid, load_config-IsValid}
use audit_logging.Common.Int.{add_int64}
use audit_logging.Text.Decimal.{format_uint, format_int}
use audit_logging.Server.Model.{LogRecord, Entry}
use audit_logging.Server.Codec.{sha256_hex}
use audit_logging.Server.Chain.{entry_digest, preimage}
use audit_logging.Server.PostgresStore.Append.{IsExtended, append-IsExtended}
use audit_logging.Tests.Toy
use audit_logging.Tests.Toy.{toy}

abbrev response : LogResponse
response = record {
  index = 1;
  timestamp = codes "T";
  entry_hash = codes "h";
  prev_hash = codes "p";
}

-- A service that is not there for the first attempt.
abbrev late : World
late = record {
  marshal = λ p. ok p.message;
  unmarshal = λ s. ok response;
  request_error = none;
  answer =
      λ attempt sent. if attempt == 1 then failed (failure (codes "refused")) else answered 201 [];
  random = λ attempt n. 0;
  sleep = λ attempt delay. none;
}

abbrev patient : Client
patient = record (new []) { retry = record (new []).retry { max_attempts = pos 3 } }

abbrev payload : LogRequest
payload = record { app = codes "a"; level = codes "l"; message = codes "m"; metadata = none }

wrote : (write_log late patient payload).result ≡ ok response
unfolding write_log new attempts step trim_space normalize_retry should_retry_status
wrote = refl

write_log-Accepted_example : Accepted late patient payload response
write_log-Accepted_example = write_log-Accepted late patient payload response wrote

abbrev settings : Config.Config
settings = record {
  server_url = codes "u";
  auth_bearer_token = codes "t";
  source_file = codes "f";
  app_name = codes "a";
  timestamp_field = codes "ts";
  parser_mode = [];
  regex_pattern = [];
  default_level = [];
  poll_interval_ms = pos 0;
  batch_size = pos 0;
  flush_interval_ms = pos 0;
  checkpoint_path = [];
  retry_max_attempts = pos 0;
  retry_initial_backoff_ms = pos 0;
  retry_max_backoff_ms = pos 0;
  request_timeout_ms = pos 0;
  dead_letter_path = [];
  metrics_port = pos 9090;
  metrics_report_interval_ms = pos 0;
  verify_interval_ms = pos 0;
}

abbrev here : Config.World
here = record {
  read = λ path. ok settings;
  dir = λ path. codes ".";
  join = λ s t. s ++ t;
  abs = λ path. ok path;
  parse_url = λ s. some (codes "http", codes "host");
  compile_error = λ s. none;
  stat = λ path. (none, false);
}

abbrev pub loaded : Config.Config
loaded = record settings {
  parser_mode = codes "custom";
  default_level = codes "INFO";
  poll_interval_ms = pos 250;
  batch_size = pos 1;
  flush_interval_ms = pos 1000;
  checkpoint_path = codes ".log-forwarder.checkpoint.json";
  retry_max_attempts = pos 5;
  retry_initial_backoff_ms = pos 200;
  retry_max_backoff_ms = pos 5000;
  request_timeout_ms = pos 10000;
  dead_letter_path = codes ".log-forwarder.deadletter.jsonl";
  metrics_report_interval_ms = pos 30000;
  verify_interval_ms = pos 60000;
}

did_load : load_config ascii_only here (codes "c") ≡ ok loaded
unfolding load_config apply_defaults validate trim_space to_lower to_upper equal
did_load = refl

load_config-IsValid_example : IsValid here loaded
load_config-IsValid_example = load_config-IsValid ascii_only here (codes "c") loaded did_load

abbrev calm : TxEnv
calm = record {
  now = codes "T";
  begin_error = none;
  query_error = none;
  exec_error = none;
  commit_error = none;
}

abbrev some_record : LogRecord
some_record = record {
  client_id = codes "c";
  app = codes "a";
  level = codes "l";
  message = codes "m";
  metadata = none;
}

abbrev append_answer : EntryRow → Entry
append_answer r = record {
  index = 1;
  timestamp = r.ts;
  prev_hash = r.prev_hash;
  payload_hash = r.payload_hash;
  entry_hash = r.entry_hash;
  log_record = some_record;
}

abbrev table : List EntryRow
table =
    (append toy calm
      (record {
        client_id = codes "c";
        app = codes "a";
        level = codes "l";
        message = codes "m";
        metadata = none;
      })
      []).1

verify_iff_example :
    (v : VerifyResult) × (verify toy none none table ≡ ok v)
    × ((v.valid ≡ true) ↔ IsTable toy (by_index table))
    × (IsTable toy (by_index table) → v ≡ whole_result toy (by_index table))
verify_iff_example = verify_iff toy table

abbrev noted : EntryRow
noted = record {
  entry_index = pos 1;
  ts = codes "T";
  prev_hash = genesis;
  payload_hash = sha256_hex toy (Toy.fields_text (Toy.record_fields some_record));
  entry_hash =
      entry_digest toy 1 (codes "T")
        (sha256_hex toy (Toy.fields_text (Toy.record_fields some_record))) genesis;
  record_json = Toy.fields_text (Toy.record_fields some_record);
}

appended : append toy calm some_record [] ≡ (ok (append_answer noted), noted ∷ [])
unfolding append by_index entry_digest preimage add_int64 format_uint format_int
appended = refl

append-IsExtended_example : IsExtended toy some_record [] (noted ∷ [])
append-IsExtended_example =
    append-IsExtended toy calm some_record [] (noted ∷ []) (append_answer noted) (omega arith) tt
      (omega arith) appended
