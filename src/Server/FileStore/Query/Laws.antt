-- ===== src/Server/FileStore/Query/Laws.antt =====
-- QueryLogs answers with the page that the specification says, where the file can be read.
use audit_logging.Common.{
  List, [], ◌∷◌, ◌≡◌, refl, ap, ap₂, ◌∙◌, Bool, true, false, ◌&&◌, none, some, arith, ltb, length,
  take, drop, select, Bool-cases, inl, inr, ◌-◌, if◌then◌else◌,
}
use audit_logging.Common.Int.{pos, pos_part, ltb_ℤ}
use audit_logging.Text.{Text, is_empty}
use audit_logging.Text.Space.{trim_space}
use audit_logging.Text.Fold.{Unicode}
use audit_logging.Server.Model.{ok, Stream, eof, more, Entry, LogQuery}
use audit_logging.Server.Codec.{Codec}
use audit_logging.Server.Match.{matches_query}
use audit_logging.Server.Window.{last_cursor, behind, window, page_of}
use audit_logging.Server.FileStore.{FileStore, scan_lines}
use audit_logging.Server.FileStore.Query.{
  Page, Turn, empty_page, continue, break, query_entry, query_lines, result_of, query_logs,
}
use audit_logging.Server.FileStore.Query.Round.{Goal}
use audit_logging.Server.FileStore.Query.Loop.{query_entries, query_entries-Goal}

-- The lines hold these entries, with blank lines between them at most, and end.
pub data Reads (c : Codec) : Stream Text → List Entry → Type 0 where
  none_left : Reads c eof []
  skip :
      {raw : Text} {rest : Stream Text} {es : List Entry}
      → is_empty (trim_space raw) ≡ true
      → Reads c rest es
      → Reads c (more raw rest) es
  take_entry :
      {raw : Text} {rest : Stream Text} {e : Entry} {es : List Entry}
      → is_empty (trim_space raw) ≡ false
      → c.unmarshal_entry (trim_space raw) ≡ ok e
      → Reads c rest es
      → Reads c (more raw rest) (e ∷ es)

module _ (matching : Entry → Bool) (q : LogQuery) (c : Codec) where
  turn_lines :
      (t : Turn) (rest : Stream Text) (es : List Entry)
      → ((x : Page) → query_lines matching q c rest x ≡ ok (query_entries matching q es x))
      → (elim t [ continue p ↦ query_lines matching q c rest p | break p ↦ ok p ])
        ≡ ok (elim t [ continue p ↦ query_entries matching q es p | break p ↦ p ])
  turn_lines (continue p) rest es ih = ih p
  turn_lines (break p) rest es ih = refl

  query_lines-Reads :
      {s : Stream Text} {es : List Entry} (p : Page)
      → Reads c s es
      → query_lines matching q c s p ≡ ok (query_entries matching q es p)
  unfolding query_lines query_entries
  query_lines-Reads p none_left = refl
  query_lines-Reads p (skip b r) = rw (b, query_lines) (query_lines-Reads p r)
  query_lines-Reads p (take_entry {raw} {rest} {e} {es} b u r) =
      rw (b, query_lines)
        (rw (u, query_lines)
          (turn_lines (query_entry matching q e p) rest es (λ x. query_lines-Reads x r)))

-- The cursor of a page that is not empty is that of its last entry.
next_cursor_lem :
    (b : Bool) (items : List Entry)
    → (if b && ltb 0 (length items) then last_cursor items else none)
      ≡ (if b then last_cursor items else none)
next_cursor_lem true [] = refl
next_cursor_lem true (e ∷ es) = ground arith
next_cursor_lem false items = refl

result_of-page_of :
    (matching : Entry → Bool) (q : LogQuery) (es : List Entry) (r : Page)
    → Goal matching q es empty_page r
    → result_of q r ≡ page_of matching q es
unfolding result_of
result_of-page_of matching q es r g = λ i. record {
  items = items i;
  limit = q.limit;
  next_cursor = cursor i;
  total = total i;
  offset = if ltb_ℤ (pos 0) q.offset then some q.offset else none;
}
  where
    all_room : pos_part q.limit - 0 ≡ pos_part q.limit
    all_room = omega arith

    all_ahead : pos_part q.offset - 0 ≡ pos_part q.offset
    all_ahead = omega arith

    items : r.items ≡ (page_of matching q es).items
    items =
        g.items
        ∙ ap₂ (λ m n. take m (drop n (behind q.after_index (select matching es)))) all_room
            all_ahead

    has_more : r.has_more ≡ ltb (pos_part q.limit) (length (window matching q es))
    has_more =
        g.has_more
        ∙ ap₂ (λ m n. ltb m (length (drop n (behind q.after_index (select matching es))))) all_room
            all_ahead

    cursor : (result_of q r).next_cursor ≡ (page_of matching q es).next_cursor
    cursor =
        next_cursor_lem r.has_more r.items
        ∙ ap₂ (λ (b : Bool) (is : List Entry). if b then last_cursor is else none) has_more items

    total : (result_of q r).total ≡ (page_of matching q es).total
    total = elim (Bool-cases q.want_total) [
      | inl w ↦ rw w (ap some (g.total w ∙ omega arith))
      | inr w ↦ rw w
    ]

-- Where the lines of the file are entries, QueryLogs answers with the page that the specification
-- says: the matching entries behind the cursor and the offset, up to the limit, a cursor exactly if
-- there are more, and the number of all matching entries if it is asked for.
pub query_logs_correct :
    (u : Unicode) (c : Codec) (s : FileStore) (q : LogQuery) (text : Text) (es : List Entry)
    → s.content ≡ some text
    → Reads c (scan_lines text) es
    → query_logs u c s q ≡ ok (page_of (λ e. matches_query u c e q) q es)
unfolding query_logs
query_logs_correct u c s q text es h r =
    let matching = λ (e : Entry). matches_query u c e q in
    rw h (
      rw (query_lines-Reads matching q c empty_page r) (
        ap ok (
          result_of-page_of matching q es (query_entries matching q es empty_page)
            (query_entries-Goal matching q es empty_page))))
