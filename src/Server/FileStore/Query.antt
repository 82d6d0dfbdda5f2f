-- ===== src/Server/FileStore/Query.antt =====
-- FileStore.QueryLogs: one pass over the lines of the file.
mod Round
mod Loop
pub mod Laws
use audit_logging.Common.{
  ℕ, ◌+◌, List, [], ◌∷◌, ◌++◌, ◌≡◌, refl, sym, ap, ◌∙◌, Bool, true, false, not, ◌&&◌, Option, none,
  some, arith, leb, ltb, if◌then◌else◌, length,
}
use audit_logging.Common.Int.{ℤ, pos, ltb_ℤ}
use audit_logging.Text.{Text, codes, is_empty}
use audit_logging.Text.Fold.{Unicode}
use audit_logging.Text.Space.{trim_space}
use audit_logging.Server.Model.{
  Error, failure, Result, ok, err, ◌>>=◌, Stream, eof, broken, more, Entry, LogQuery,
  LogQueryResult,
}
use audit_logging.Server.Codec.{Codec}
use audit_logging.Server.Match.{matches_query}
use audit_logging.Server.Window.{last_cursor, page_of}
use audit_logging.Server.FileStore.{FileStore, scan_lines, open_file}

-- The variables of the loop.
pub record Page : Type 0 where
  pub items : List Entry
  pub total : ℕ
  pub skipped : ℕ
  pub has_more : Bool

abbrev pub empty_page : Page
empty_page = record { items = []; total = 0; skipped = 0; has_more = false }

-- One round: go on, or leave the loop.
pub data Turn : Type 0 where
  continue break : Page → Turn

module _ (matching : Entry → Bool) (q : LogQuery) where
  -- the body of the loop for an entry that was read
  unfoldable pub query_entry : Entry → Page → Turn
  query_entry e p =
      let counted = record p { total = p.total + 1 } in
      if not (matching e)
      then continue p
      else if leb e.index q.after_index
      then continue counted
      else if ltb_ℤ (pos p.skipped) q.offset
      then continue (record counted { skipped = p.skipped + 1 })
      else if ltb_ℤ (pos (length p.items)) q.limit
      then continue (record counted { items = p.items ++ e ∷ [] })
      else if not q.want_total
      then break (record counted { has_more = true })
      else continue (record counted { has_more = true })

  module _ (c : Codec) where
    unfoldable pub query_lines : Stream Text → Page → Result Page
    query_lines eof p = ok p
    query_lines (broken e) p = err e
    query_lines (more raw rest) p =
        let line = trim_space raw in
        elim (is_empty line) [
          | true ↦ query_lines rest p
          | false ↦ elim (c.unmarshal_entry line) [
            | err x ↦ err x
            | ok e ↦ elim (query_entry e p) [ continue p' ↦ query_lines rest p' | break p' ↦ ok p' ]
          ]
        ]

-- what QueryLogs returns after the loop
pub result_of : LogQuery → Page → LogQueryResult
result_of q p = record {
  items = p.items;
  limit = q.limit;
  next_cursor = if p.has_more && ltb 0 (length p.items) then last_cursor p.items else none;
  total = if q.want_total then some p.total else none;
  offset = if ltb_ℤ (pos 0) q.offset then some q.offset else none;
}

unfoldable pub query_logs : Unicode → Codec → FileStore → LogQuery → Result LogQueryResult
unfolding result_of
query_logs u c s q = do
  content ← open_file s
  p ← query_lines (λ e. matches_query u c e q) q c (scan_lines content) empty_page
  ok (result_of q p)
