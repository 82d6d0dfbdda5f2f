-- ===== src/Server/PostgresStore/Query.antt =====
-- PostgresStore.QueryLogs of cmd/server/main.go: the clauses of its two statements, and what it makes
-- of the rows.
use audit_logging.Common.{
  ℕ, ◌∷◌, List, [], ◌++◌, Bool, true, false, ◌&&◌, ◌||◌, Option, none, some, ltb, if◌then◌else◌,
  length, take, drop, select,
}
use audit_logging.Common.Int.{pos, pos_part, ltb_ℤ, add_int64, int64_of}
use audit_logging.Text.{Text, codes, is_empty, equal}
use audit_logging.Server.Model.{
  Error, Result, ok, err, ◌>>=◌, Stream, eof, broken, more, Entry, LogQuery, LogQueryResult,
}
use audit_logging.Server.Codec.{Codec}
use audit_logging.Server.Window.{last_cursor}
use audit_logging.Server.PostgresStore.{EntryRow, by_index, stream_of, unless, entry_of}

-- What Postgres computes: `record_json::jsonb->>'name'`, `none` for NULL, and ILIKE.
pub record Db : Type 0 where
  pub field : Text → Text → Option Text
  pub ilike : Text → Text → Bool

-- What goes wrong: the counting query, the listing query, and the rows in between.
pub record QueryEnv : Type 0 where
  pub count_error : Option Error
  pub query_error : Option Error
  pub rows_error : Option Error

-- A comparison with NULL selects nothing.
abbrev holds : (Text → Bool) → Option Text → Bool
holds p none = false
holds p (some s) = p s

module _ (db : Db) where
  -- the filters that are joined by AND, one for each field of the query that is given
  unfoldable pub row_matches : LogQuery → EntryRow → Bool
  row_matches q r =
      let is_field = λ (name value : Text).
        is_empty value || holds (λ s. equal s value) (db.field r.record_json name) in
      let pattern = b'%' ∷ (q.text ++ (b'%' ∷ [])) in
      let has_text =
        holds (λ s. db.ilike s pattern) (db.field r.record_json (codes "message"))
        || db.ilike r.record_json pattern in
      is_field (codes "clientId") q.client_id
      && is_field (codes "app") q.app
      && is_field (codes "level") q.level
      && (is_empty q.text || has_text)

  -- `entry_index > $n`, if there is a cursor
  unfoldable pub row_behind_cursor : LogQuery → EntryRow → Bool
  row_behind_cursor q r =
      if ltb 0 q.after_index then ltb_ℤ (int64_of q.after_index) r.entry_index else true

  -- SELECT … WHERE … ORDER BY entry_index ASC LIMIT limit + 1 OFFSET offset
  unfoldable pub select_rows : LogQuery → List EntryRow → List EntryRow
  select_rows q t = take (pos_part (add_int64 q.limit (pos 1))) (
      drop (pos_part q.offset) (select (row_behind_cursor q) (select (row_matches q) (by_index t))))

  -- SELECT COUNT(*), if the query asks for it
  unfoldable pub count_rows : QueryEnv → LogQuery → List EntryRow → Result (Option ℕ)
  count_rows env q t =
      if q.want_total
      then unless env.count_error (ok (some (length (select (row_matches q) t))))
      else ok none

  module _ (c : Codec) where
    -- the loop over the rows
    unfoldable pub read_rows : Stream EntryRow → Result (List Entry)
    unfolding entry_of
    read_rows eof = ok []
    read_rows (broken e) = err e
    read_rows (more r rest) = elim (c.unmarshal_record r.record_json) [
      | err e ↦ err e
      | ok log_record ↦ read_rows rest >>= λ es. ok (entry_of c r log_record ∷ es)
    ]

    -- the result: the extra row is cut off, and says that there is a next page
    unfoldable pub page_of_rows : LogQuery → Option ℕ → List Entry → LogQueryResult
    page_of_rows q total items =
        let kept = take (pos_part q.limit) items in
        let more_rows = ltb_ℤ q.limit (pos (length items)) in
        record {
          items = if more_rows then kept else items;
          limit = q.limit;
          next_cursor = if more_rows then last_cursor kept else none;
          total = total;
          offset = if ltb_ℤ (pos 0) q.offset then some q.offset else none;
        }

    unfoldable pub query_logs : QueryEnv → LogQuery → List EntryRow → Result LogQueryResult
    unfolding count_rows page_of_rows stream_of
    query_logs env q t = count_rows env q t >>= λ total.
        unless env.query_error (read_rows (stream_of c env.rows_error (select_rows q t)))
        >>= λ items. ok (page_of_rows q total items)
