-- ===== src/Server/PostgresStore.antt =====
-- PostgresStore of cmd/server/main.go: the table audit_log_entries as the list of its rows, and the
-- statements on it. A transaction holds the advisory lock from its first statement on, so a run is a
-- sequence of calls here too.
pub mod Laws
pub mod Query
pub mod Append
pub mod Pages
use audit_logging.Common.{
  ℕ, suc, ◌+◌, ◌*◌, ◌-◌, ◌%◌, ◌^◌, List, [], ◌∷◌, ◌++◌, Bool, true, false, not, ◌&&◌, ◌||◌, Option,
  none, some, ◌==◌, ltb, leb, if◌then◌else◌, length, take, drop, select, map,
}
use audit_logging.Common.Int.{ℤ, pos, negsuc, pos_part, ltb_ℤ, leb_ℤ, word_of, int64_of, add_int64}
use audit_logging.Text.{Text, codes, is_empty, equal}
use audit_logging.Text.Decimal.{format_uint, format_int}
use audit_logging.Server.Model.{
  Error, failure, Result, ok, err, ◌>>=◌, Stream, eof, broken, more, next_uint64, LogRecord, Entry,
  index_broken, VerifyResult, LogQuery, LogQueryResult,
}
use audit_logging.Server.Codec.{Codec, sha256_hex}
use audit_logging.Server.Cursor.{encode_cursor}
use audit_logging.Server.Window.{last_cursor}
use audit_logging.Server.Chain.{genesis, Link, link_fault, invalid, intact}
use audit_logging.Server.FileStore.Open.{deref_uint64}

-- One row; `entry_index` is a BIGINT.
pub record EntryRow : Type 0 where
  pub entry_index : ℤ
  pub ts : Text
  pub prev_hash : Text
  pub payload_hash : Text
  pub entry_hash : Text
  pub record_json : Text

-- A table without gaps in its answer: ORDER BY entry_index ASC.
insert_by_index : EntryRow → List EntryRow → List EntryRow
insert_by_index r [] = r ∷ []
insert_by_index r (s ∷ t) =
    let rest = insert_by_index r t in
    if leb_ℤ r.entry_index s.entry_index then r ∷ s ∷ t else s ∷ rest

unfoldable pub by_index : List EntryRow → List EntryRow
unfolding insert_by_index
by_index [] = []
by_index (r ∷ t) = insert_by_index r (by_index t)

-- The row at the end of that order gives MAX(entry_index) and the last hash.
abbrev pub last_of : List EntryRow → ℤ × Text
last_of [] = (pos 0, genesis)
last_of (r ∷ []) = (r.entry_index, r.entry_hash)
last_of (r ∷ s ∷ t) = last_of (s ∷ t)

-- the primary key, and UNIQUE on entry_hash
abbrev pub has_row : (EntryRow → Bool) → List EntryRow → Bool
has_row p [] = false
has_row p (r ∷ t) = p r || has_row p t

abbrev pub equal_ℤ : ℤ → ℤ → Bool
equal_ℤ (pos a) (pos b) = a == b
equal_ℤ (negsuc a) (negsuc b) = a == b
equal_ℤ _ _ = false

insert_entry : EntryRow → List EntryRow → Result (List EntryRow)
insert_entry r t =
    if has_row (λ s. equal_ℤ s.entry_index r.entry_index || equal s.entry_hash r.entry_hash) t
    then err (failure (codes "duplicate key value violates unique constraint"))
    else ok (t ++ r ∷ [])

-- What the world answers to one Append: the clock, and an error of Begin or of the lock, of the
-- query, of the insertion and of Commit.
pub record TxEnv : Type 0 where
  pub now : Text
  pub begin_error : Option Error
  pub query_error : Option Error
  pub exec_error : Option Error
  pub commit_error : Option Error

abbrev pub unless : {A : Type 0} → Option Error → Result A → Result A
unless (some e) r = err e
unless none r = r

module _ (c : Codec) where
  -- the row that is inserted behind the last one
  row_behind : ℤ × Text → Text → Text → EntryRow
  row_behind (last_index, prev_hash) timestamp payload =
      let next_index = add_int64 last_index (pos 1) in
      let payload_hash = sha256_hex c payload in
      record {
        entry_index = next_index;
        ts = timestamp;
        prev_hash = prev_hash;
        payload_hash = payload_hash;
        entry_hash = sha256_hex c (
            format_int next_index
            ++ (b'|' ∷ (timestamp ++ (b'|' ∷ (payload_hash ++ (b'|' ∷ prev_hash))))));
        record_json = payload;
      }

  unfoldable pub entry_of : EntryRow → LogRecord → Entry
  entry_of r log_record = record {
    index = word_of r.entry_index;
    timestamp = r.ts;
    prev_hash = r.prev_hash;
    payload_hash = r.payload_hash;
    entry_hash = r.entry_hash;
    log_record = log_record;
  }

  -- the statements of the transaction, up to and with Commit
  run_tx : TxEnv → LogRecord → List EntryRow → Result (Entry × List EntryRow)
  unfolding row_behind entry_of insert_entry
  run_tx env log_record t = unless env.begin_error (
      unless env.query_error (
        c.marshal_record log_record >>= λ payload.
        let r = row_behind (last_of (by_index t)) env.now payload in
        unless env.exec_error (insert_entry r t) >>= λ t'.
        unless env.commit_error (ok (entry_of r log_record, t'))))

  -- a transaction that is not committed is rolled back
  settle_tx : List EntryRow → Result (Entry × List EntryRow) → Result Entry × List EntryRow
  settle_tx t (err e) = (err e, t)
  settle_tx t (ok (e, t')) = (ok e, t')

  -- PostgresStore.Append
  unfoldable pub append : TxEnv → LogRecord → List EntryRow → Result Entry × List EntryRow
  unfolding run_tx settle_tx
  append env log_record t = settle_tx t (run_tx env log_record t)

  -- a row as the checks see it
  abbrev pub link_of : EntryRow → Link
  link_of r = record {
    index = word_of r.entry_index;
    timestamp = r.ts;
    prev_hash = r.prev_hash;
    payload_hash = r.payload_hash;
    entry_hash = r.entry_hash;
    payload = r.record_json;
  }

  -- the loop over the rows, which may break off
  unfoldable pub verify_rows : ℕ → Text → ℕ → Stream EntryRow → Result VerifyResult
  verify_rows expected_index previous_hash total eof = ok (intact total previous_hash)
  verify_rows expected_index previous_hash total (broken e) = err e
  verify_rows expected_index previous_hash total (more r rest) =
      elim (leb_ℤ r.entry_index (pos 0)) [
        | true ↦ ok (invalid total previous_hash expected_index index_broken)
        | false ↦ elim (link_fault c expected_index previous_hash (link_of r)) [
          | some why ↦ ok (invalid total previous_hash expected_index why)
          | none ↦ verify_rows (next_uint64 expected_index) r.entry_hash (next_uint64 total) rest
        ]
      ]

  -- What a query sends back: the rows, until an error of the connection.
  unfoldable pub stream_of : Option Error → List EntryRow → Stream EntryRow
  stream_of none [] = eof
  stream_of (some e) [] = broken e
  stream_of e (r ∷ t) = more r (stream_of e t)

  -- PostgresStore.Verify
  unfoldable pub verify : Option Error → Option Error → List EntryRow → Result VerifyResult
  unfolding stream_of
  verify query_error rows_error t =
      unless query_error (verify_rows 1 genesis 0 (stream_of rows_error (by_index t)))

  -- NewPostgresStore, with its schema in place
  unfoldable pub accept_table : VerifyResult → Result (List EntryRow) → Result (List EntryRow)
  accept_table r t =
      if r.valid
      then t
      else err
          (failure (codes "invalid chain at index " ++ format_uint (deref_uint64 r.invalid_at)))

  unfoldable pub new_postgres_store :
      Bool → Option Error → Option Error → Option Error → List EntryRow → Result (List EntryRow)
  unfolding accept_table
  new_postgres_store has_db schema_error query_error rows_error t =
      if not has_db
      then err (failure (codes "a database handle is required for the postgres backend"))
      else unless schema_error (verify query_error rows_error t >>= λ r. accept_table r (ok t))
