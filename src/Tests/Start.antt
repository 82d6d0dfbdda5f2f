-- ===== src/Tests/Start.antt =====
-- A start of the service over a table of no rows, and over a log file that is not there yet.
use audit_logging.Text.Decimal.{format_int, format_uint}
use audit_logging.Server.PostgresStore.{new_postgres_store, verify, verify_rows, by_index}
use audit_logging.Server.Registry.Open.{new_postgres_client_store, ensure_schema}
use audit_logging.Text.Space.{trim_space}
use audit_logging.Common.{◌≡◌, refl, [], none}
use audit_logging.Common.Int.{pos}
use audit_logging.Text.{codes, equal}
use audit_logging.Server.Query.{default_query_limits}
use audit_logging.Server.Config.{Config, listen_addr}
use audit_logging.Server.Start.{
  StartEnv, listening, postgres_backend, start_server, opened_db, pinged, with_clients, with_table,
}
use audit_logging.Server.Start.Laws.{IsSafe, start_server-IsSafe}
use audit_logging.Tests.Toy.{toy}

abbrev settings : Config
settings = record {
  port = pos 8080;
  bind_addr = [];
  storage_backend = codes "postgres";
  database_url = codes "postgres://";
  log_file = codes "audit.log.jsonl";
  max_payload_bytes = pos 32768;
  query = default_query_limits;
}

abbrev new_machine : StartEnv
new_machine = record {
  open_error = none;
  ping_error = none;
  clients_error = none;
  clients = none;
  schema_error = none;
  query_error = none;
  rows_error = none;
  rows = [];
  file_env = record { mkdir_error = none; stat_error = none; create_error = none };
  file = none;
}

starts : start_server toy new_machine settings ≡ listening (codes ":8080") (postgres_backend []) []
unfolding start_server trim_space opened_db pinged with_clients new_postgres_client_store
    ensure_schema equal with_table new_postgres_store verify verify_rows by_index listen_addr
    format_int format_uint
starts = refl

start_server-IsSafe_example :
    IsSafe toy new_machine settings (start_server toy new_machine settings)
start_server-IsSafe_example = start_server-IsSafe toy new_machine settings
