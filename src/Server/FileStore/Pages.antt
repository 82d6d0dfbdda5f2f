-- ===== src/Server/FileStore/Pages.antt =====
-- FileStore.QueryLogs of cmd/server/main.go, asked for one page after the other.
use audit_logging.Common.{ℕ, ◌<◌, List, ◌≡◌, refl, ap, ◌∙◌, Bool, some, length, select}
use audit_logging.Text.{Text}
use audit_logging.Text.Fold.{Unicode}
use audit_logging.Server.Model.{Result, Entry, LogQuery, LogQueryResult}
use audit_logging.Server.Codec.{Codec}
use audit_logging.Server.Match.{matches_query}
use audit_logging.Server.Window.{behind}
use audit_logging.Server.Paging.{Ascending, Small, paged, read_all, pages_of_complete}
use audit_logging.Server.FileStore.{FileStore, scan_lines}
use audit_logging.Server.FileStore.Query.{query_logs}
use audit_logging.Server.FileStore.Query.Laws.{Reads, query_logs_correct}

module _ (u : Unicode) (c : Codec) where
  abbrev matching : LogQuery → Entry → Bool
  matching q e = matches_query u c e q

  paged-matching : (q : LogQuery) (n after : ℕ) → matching (paged q n after) ≡ matching q
  unfolding matches_query
  paged-matching q n after = refl

  -- Reading a log file page by page, with the cursor of each page of QueryLogs for the next request, ends
  -- and gives every entry that matches the query and lies behind the start exactly once and in order,
  -- where the lines of the file are entries whose indexes rise and fit a signed word: one request more
  -- than there are such entries is enough.
  pub pages_complete :
      (s : FileStore) (q : LogQuery) (text : Text) (es : List Entry) (n fuel after : ℕ)
      → s.content ≡ some text
      → Reads c (scan_lines text) es
      → Ascending 0 es
      → Small es
      → length (behind after (select (λ e. matches_query u c e q) es)) < fuel
      → read_all fuel (query_logs u c s) (paged q n after)
        ≡ some (behind after (select (λ e. matches_query u c e q) es))
  pages_complete s q text es n fuel after content reads rising small enough =
      ap (λ (ask : LogQuery → Result LogQueryResult). read_all fuel ask (paged q n after))
        (λ i r. query_logs_correct u c s r text es content reads i)
      ∙ pages_of_complete matching q n es (paged-matching q n) rising small fuel after enough
