-- ===== src/Tests/Reading.antt =====
-- Cursors, queries and pages, run.
use audit_logging.Common.{
  ℕ, [], List, ◌∷◌, ◌++◌, ◌≡◌, refl, false, none, some, arith, ◌<◌, length, select,
}
use audit_logging.Common.Int.{pos}
use audit_logging.Text.{Text, codes, has_prefix}
use audit_logging.Text.Fold.{ascii_only, equal_fold}
use audit_logging.Text.Space.{trim_space}
use audit_logging.Text.Split.{trim_prefix}
use audit_logging.Text.Base64.{base64_decode}
use audit_logging.Text.Decimal.{parse_uint}
use audit_logging.Server.Model.{ok, Entry, LogQuery}
use audit_logging.Server.Cursor.{encode_cursor, decode_cursor, decode_cursor-encode_cursor}
use audit_logging.Server.Match.{matches_query}
use audit_logging.Server.Window.{behind, page_of}
use audit_logging.Server.Query.{Values, default_query_limits, normalize_log_query, parse_log_query}
use audit_logging.Server.Query.Bounds.{IsPositive, InBounds, parse_log_query-InBounds}
use audit_logging.Server.Paging.{read_all, paged}
use audit_logging.Server.FileStore.Pages.{pages_complete}
use audit_logging.Server.FileStore.{FileStore, AppendEnv, whole, scan_lines}
use audit_logging.Server.FileStore.Query.{query_logs}
use audit_logging.Server.FileStore.Query.Laws.{Reads, none_left, take_entry, query_logs_correct}
use audit_logging.Tests.Toy
use audit_logging.Tests.Toy.{toy}

decode_cursor-encode_cursor_example : decode_cursor (encode_cursor 1427) ≡ ok 1427
decode_cursor-encode_cursor_example = decode_cursor-encode_cursor 1427 (omega arith)

decoded : decode_cursor (codes "djE6MTQyNw") ≡ ok 1427
unfolding decode_cursor base64_decode parse_uint trim_space has_prefix trim_prefix
decoded = refl

-- A request without parameters.
abbrev silent : Values
silent key = []

abbrev bare : LogQuery
bare = record {
  client_id = [];
  app = [];
  level = [];
  text = [];
  limit = pos 50;
  offset = pos 0;
  after_index = 0;
  want_total = false;
}

parsed : parse_log_query ascii_only silent default_query_limits ≡ ok bare
unfolding parse_log_query trim_space normalize_log_query equal_fold
parsed = refl

defaults-IsPositive : IsPositive default_query_limits
defaults-IsPositive = record { default_limit = refl; max_limit = refl; max_offset = refl }

parse_log_query-InBounds_example : InBounds default_query_limits bare
parse_log_query-InBounds_example =
    parse_log_query-InBounds ascii_only silent default_query_limits bare defaults-IsPositive parsed

abbrev written : ℕ → Text → Entry
written index client_id = record {
  index = index;
  timestamp = codes "T";
  prev_hash = codes "p";
  payload_hash = codes "q";
  entry_hash = codes "h";
  log_record = record {
    client_id = client_id;
    app = codes "a";
    level = codes "l";
    message = codes "m";
    metadata = none;
  };
}

abbrev three : List Entry
three = written 1 (codes "c") ∷ written 2 (codes "d") ∷ written 3 (codes "c") ∷ []

abbrev line : Entry → Text
line e = Toy.fields_text (Toy.entry_fields e) ++ (b'\n' ∷ [])

abbrev content : Text
content =
    line (written 1 (codes "c")) ++ (line (written 2 (codes "d")) ++ line (written 3 (codes "c")))

content-Reads : Reads toy (scan_lines content) three
unfolding scan_lines trim_space
content-Reads = take_entry refl refl (take_entry refl refl (take_entry refl refl none_left))

abbrev filled : FileStore
filled = record { last_hash = codes "h"; last_index = 3; content = some content }

abbrev of_c : LogQuery
of_c = record bare { client_id = codes "c"; limit = pos 1 }

query_logs_correct_example :
    query_logs ascii_only toy filled of_c
    ≡ ok (page_of (λ e. matches_query ascii_only toy e of_c) of_c three)
query_logs_correct_example =
    query_logs_correct ascii_only toy filled of_c content three refl content-Reads

abbrev calm : AppendEnv
calm = record { now = codes "T"; open_error = none; written = whole }

few : length (behind 0 (select (λ e. matches_query ascii_only toy e bare) three)) < 4
unfolding matches_query
few = omega arith

pages_complete_example :
    read_all 4 (query_logs ascii_only toy filled) (paged bare 0 0)
    ≡ some (behind 0 (select (λ e. matches_query ascii_only toy e bare) three))
pages_complete_example =
    pages_complete ascii_only toy filled bare content three 0 4 0 refl content-Reads (omega arith)
      (omega arith) few
