-- ===== src/Server/Registry/Open.antt =====
-- NewPostgresClientStore of cmd/server/clientstore_postgres.go: the registry with its table in place.
use audit_logging.Common.{[], List, Bool, true, false, Option, none, some}
use audit_logging.Text.{codes}
use audit_logging.Server.Model.{Error, failure, Result, ok, err}
use audit_logging.Server.Registry.{Row}

-- CREATE TABLE IF NOT EXISTS audit_clients, on the table that is there, if one is
unfoldable pub ensure_schema : Option Error → Option (List Row) → Result (List Row)
ensure_schema (some e) t = err e
ensure_schema none none = ok []
ensure_schema none (some t) = ok t

unfoldable pub new_postgres_client_store :
    Bool → Option Error → Option (List Row) → Result (List Row)
new_postgres_client_store false exec_error t =
    err (failure (codes "a database handle is required for the client registry"))
new_postgres_client_store true exec_error t = ensure_schema exec_error t
