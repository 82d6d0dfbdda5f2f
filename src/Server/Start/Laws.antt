-- ===== src/Server/Start/Laws.antt =====
-- main of cmd/server/main.go: the log of a server that listens.
use audit_logging.Common.{
  ◌≡◌, refl, [], ◌∷◌, List, Bool, ◌⊎◌, inl, inr, Bool-cases, true, false, ◌||◌, Option, none, some,
  if◌then◌else◌, arith,
}
use audit_logging.Text.{Text, codes, is_empty, equal}
use audit_logging.Text.Equal.{equal_iff}
use audit_logging.Text.Space.{trim_space}
use audit_logging.Server.Model.{Error, Result, ok, err, VerifyResult, bind-eq-ok}
use audit_logging.Server.Codec.{Codec}
use audit_logging.Server.Config.{Config}
use audit_logging.Server.FileStore.{FileStore}
use audit_logging.Server.FileStore.Open.{or_empty, new_file_store}
use audit_logging.Server.FileStore.Laws.{IsLoaded, new_file_store-IsLoaded}
use audit_logging.Server.PostgresStore.Laws.{IsTable, verify-IsTable}
use audit_logging.Server.Chain.{Link}
use audit_logging.Server.PostgresStore.{
  EntryRow, by_index, verify, accept_table, new_postgres_store,
}
use audit_logging.Server.Registry.{Row}
use audit_logging.Server.Start.{
  Backend, file_backend, postgres_backend, StartEnv, Started, fatal_start, listening, with_file,
  with_table, with_clients, pinged, opened_db, start_server,
}

module _ (c : Codec) (v : StartEnv) (cfg : Config) where
  -- The backend that the settings name, with the log that was there and is a hash chain from the first
  -- hash on: the text of the file, or the rows of the table by their index.
  abbrev pub IsVerified : Backend → Type 0
  IsVerified (file_backend s) =
      (cfg.storage_backend ≡ codes "file" ⊎ cfg.storage_backend ≡ [])
      × (links : List Link) × IsLoaded c (or_empty v.file) s links
  IsVerified (postgres_backend t) =
      (cfg.storage_backend ≡ codes "postgres") × (t ≡ v.rows) × IsTable c (by_index v.rows)

  -- What a start has to show of its store, if it listens.
  abbrev pub IsSafe : Started → Type 0
  IsSafe (fatal_start message) = Unit
  IsSafe (listening address b clients) = IsVerified b

  with_file-IsSafe :
      (clients : List Row) (r : Result FileStore)
      → cfg.storage_backend ≡ codes "file" ⊎ cfg.storage_backend ≡ []
      → new_file_store c v.file_env v.file ≡ r
      → IsSafe (with_file c v cfg clients r)
  unfolding with_file
  with_file-IsSafe clients (err e) b h = tt
  with_file-IsSafe clients (ok s) b h =
      let (links, k) = new_file_store-IsLoaded c v.file_env v.file s h in (b, links, k)

  accept_table-eq-ok :
      (r : VerifyResult) (t : List EntryRow)
      → accept_table c r (ok v.rows) ≡ ok t
      → (t ≡ v.rows) × (r.valid ≡ true)
  unfolding accept_table
  accept_table-eq-ok r t h = ground arith

  -- The table after its schema was made.
  table-IsVerified :
      (e : Option Error) (t : List EntryRow)
      → cfg.storage_backend ≡ codes "postgres"
      → new_postgres_store c true e v.query_error v.rows_error v.rows ≡ ok t
      → IsVerified (postgres_backend t)
  unfolding new_postgres_store
  table-IsVerified (some e) t b h = absurd cc
  table-IsVerified none t b h =
      let (r, e, a) = bind-eq-ok (verify c v.query_error v.rows_error v.rows) _ h in
      let (same, valid) = accept_table-eq-ok r t a in
      (b, same, verify-IsTable c v.query_error v.rows_error v.rows r e valid)

  with_table-IsSafe :
      (clients : List Row) (r : Result (List EntryRow))
      → cfg.storage_backend ≡ codes "postgres"
      → new_postgres_store c true v.schema_error v.query_error v.rows_error v.rows ≡ r
      → IsSafe (with_table c v cfg clients r)
  unfolding with_table
  with_table-IsSafe clients (err e) b h = tt
  with_table-IsSafe clients (ok t) b h = table-IsVerified v.schema_error t b h

  if_IsSafe :
      (b : Bool) (x y : Started) → (b ≡ true → IsSafe x) → IsSafe y → IsSafe (if b then x else y)
  if_IsSafe true x y h k = h refl
  if_IsSafe false x y h k = k

  empty_lem : (s : Text) → is_empty s ≡ true → s ≡ []
  empty_lem [] h = refl
  empty_lem (b ∷ s) h = absurd cc

  named : (s : Text) → (equal s (codes "file") || is_empty s) ≡ true → s ≡ codes "file" ⊎ s ≡ []
  named s h = elim (Bool-cases (equal s (codes "file"))) [
    | inl e ↦ inl ((equal_iff _ _).0 e)
    | inr e ↦ inr (empty_lem s (ground arith))
  ]

  with_clients-IsSafe : (r : Result (List Row)) → IsSafe (with_clients c v cfg r)
  unfolding with_clients
  with_clients-IsSafe (err e) = tt
  with_clients-IsSafe (ok clients) =
      if_IsSafe (equal cfg.storage_backend (codes "postgres")) _ _
        (λ e. with_table-IsSafe clients _ ((equal_iff _ _).0 e) refl)
        (if_IsSafe (equal cfg.storage_backend (codes "file") || is_empty cfg.storage_backend) _ _
          (λ e. with_file-IsSafe clients _ (named cfg.storage_backend e) refl) tt)

  pinged-IsSafe : (e : Option Error) → IsSafe (pinged c v cfg e)
  unfolding pinged
  pinged-IsSafe (some e) = tt
  pinged-IsSafe none = with_clients-IsSafe _

  opened_db-IsSafe : (e : Option Error) → IsSafe (opened_db c v cfg e)
  unfolding opened_db
  opened_db-IsSafe (some e) = tt
  opened_db-IsSafe none = pinged-IsSafe v.ping_error

  -- A server that comes to listen serves the log that the setting of its backend names, the text of the
  -- file, or the empty text where there is none, or the rows of the table, and that log's entries, by
  -- their order, or its rows, by their index, are a hash chain from the first hash on. With any other
  -- setting it does not listen.
  pub start_server-IsSafe : IsSafe (start_server c v cfg)
  unfolding start_server
  start_server-IsSafe =
      if_IsSafe (is_empty (trim_space cfg.database_url)) _ _ (λ e. tt)
        (opened_db-IsSafe v.open_error)
