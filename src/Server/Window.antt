-- ===== src/Server/Window.antt =====
-- What a page of the log is, whatever store answers: the abstract specification of QueryLogs.
use audit_logging.Common.{
  ℕ, List, [], ◌∷◌, Bool, Option, none, some, ltb, if◌then◌else◌, length, take, drop, select,
}
use audit_logging.Common.Int.{pos, pos_part, ltb_ℤ}
use audit_logging.Text.{Text}
use audit_logging.Server.Model.{Entry, LogQuery, LogQueryResult}
use audit_logging.Server.Cursor.{encode_cursor}

-- The entries that match, those of them behind the cursor, and those behind the offset.
abbrev pub behind : ℕ → List Entry → List Entry
behind after_index es = select (λ e. ltb after_index e.index) es

abbrev pub window : (Entry → Bool) → LogQuery → List Entry → List Entry
window matching q es = drop (pos_part q.offset) (behind q.after_index (select matching es))

-- The cursor of the last entry.
abbrev pub last_cursor : List Entry → Option Text
last_cursor [] = none
last_cursor (e ∷ []) = some (encode_cursor e.index)
last_cursor (e ∷ f ∷ es) = last_cursor (f ∷ es)

-- The first entries of the window up to the limit, a cursor exactly if the window goes on, and the
-- number of all matching entries if it is asked for.
abbrev pub page_of : (Entry → Bool) → LogQuery → List Entry → LogQueryResult
page_of matching q es =
    let w = window matching q es in
    let items = take (pos_part q.limit) w in
    record {
      items = items;
      limit = q.limit;
      next_cursor = if ltb (pos_part q.limit) (length w) then last_cursor items else none;
      total = if q.want_total then some (length (select matching es)) else none;
      offset = if ltb_ℤ (pos 0) q.offset then some q.offset else none;
    }
