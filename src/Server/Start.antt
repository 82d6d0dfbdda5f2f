-- ===== src/Server/Start.antt =====
-- main of cmd/server/main.go, up to the listener.
pub mod Laws
use audit_logging.Common.{
  ℕ, ◌≡◌, refl, [], List, ◌∷◌, ◌++◌, Bool, true, false, ◌||◌, Option, none, some, if◌then◌else◌,
}
use audit_logging.Text.{Text, codes, is_empty, equal}
use audit_logging.Text.Space.{trim_space}
use audit_logging.Server.Model.{Error, error_text, Result, ok, err, ◌>>=◌}
use audit_logging.Server.Codec.{Codec}
use audit_logging.Server.Config.{Config, listen_addr}
use audit_logging.Server.FileStore.{FileStore}
use audit_logging.Server.FileStore.Open.{OpenEnv, new_file_store}
use audit_logging.Server.PostgresStore.{EntryRow, new_postgres_store}
use audit_logging.Server.Registry.{Row}
use audit_logging.Server.Registry.Open.{new_postgres_client_store}

-- The store behind the router.
pub data Backend : Type 0 where
  file_backend : FileStore → Backend
  postgres_backend : List EntryRow → Backend

-- What the start meets: the errors of sql.Open and of Ping, of the registry's schema with its table, of
-- the log's schema and of the query that verifies the table, its rows, and the log file.
pub record StartEnv : Type 0 where
  pub open_error : Option Error
  pub ping_error : Option Error
  pub clients_error : Option Error
  pub clients : Option (List Row)
  pub schema_error : Option Error
  pub query_error : Option Error
  pub rows_error : Option Error
  pub rows : List EntryRow
  pub file_env : OpenEnv
  pub file : Option Text

-- log.Fatal with its message, or the address of the listener, with the store and the registry that the
-- router serves.
pub data Started : Type 0 where
  fatal_start : Text → Started
  listening : Text → Backend → List Row → Started

abbrev pub fatal_of : Text → Error → Started
fatal_of what e = fatal_start (what ++ (codes ": " ++ error_text e))

module _ (c : Codec) (v : StartEnv) (cfg : Config) where
  unfoldable pub with_file : List Row → Result FileStore → Started
  with_file clients (err e) = fatal_of (codes "failed to initialize file store") e
  with_file clients (ok s) = listening (listen_addr cfg) (file_backend s) clients

  unfoldable pub with_table : List Row → Result (List EntryRow) → Started
  with_table clients (err e) = fatal_of (codes "failed to initialize postgres store") e
  with_table clients (ok t) = listening (listen_addr cfg) (postgres_backend t) clients

  -- the switch on the backend
  unfoldable pub with_clients : Result (List Row) → Started
  with_clients (err e) = fatal_of (codes "failed to initialize client registry") e
  with_clients (ok clients) =
      if equal cfg.storage_backend (codes "postgres")
      then with_table clients
          (new_postgres_store c true v.schema_error v.query_error v.rows_error v.rows)
      else if equal cfg.storage_backend (codes "file") || is_empty cfg.storage_backend
      then with_file clients (new_file_store c v.file_env v.file)
      else fatal_start (codes "invalid STORAGE_BACKEND: " ++ cfg.storage_backend)

  unfoldable pub pinged : Option Error → Started
  pinged (some e) = fatal_of (codes "failed to reach database") e
  pinged none = with_clients (new_postgres_client_store true v.clients_error v.clients)

  unfoldable pub opened_db : Option Error → Started
  opened_db (some e) = fatal_of (codes "failed to open database") e
  opened_db none = pinged v.ping_error

  unfoldable pub start_server : Started
  start_server =
      if is_empty (trim_space cfg.database_url)
      then fatal_start (
          codes
            "DATABASE_URL is required: the client registry is always stored in PostgreSQL, whatever STORAGE_BACKEND is set to")
      else opened_db v.open_error
