-- ===== src/Server/Query.antt =====
-- QueryLimits, normalizeLogQuery and parseLogQuery of cmd/server/query.go.
pub mod Bounds
use audit_logging.Common.{
  ℕ, ◌≤◌, [], ◌∷◌, ◌++◌, subst, ◌≡◌, ◌⊎◌, inl, inr, refl, true, false, not, ◌&&◌, Option, none,
  some, arith, if◌then◌else◌,
}
use audit_logging.Common.Int.{ℤ, pos, negsuc, ltb_ℤ, leb_ℤ}
use audit_logging.Text.{Text, codes, is_empty}
use audit_logging.Text.Space.{trim_space}
use audit_logging.Text.Fold.{Unicode, equal_fold}
use audit_logging.Text.Decimal.{max_int64, NumError, parse_int, format_int}
use audit_logging.Server.Model.{
  Result, ok, err, ◌>>=◌, failure, bind-eq-ok, binds-eq-ok, ok_injective, LogQuery,
}
use audit_logging.Server.Cursor.{decode_cursor, decode_cursor-le-max_int64}

pub record QueryLimits : Type 0 where
  pub default_limit : ℤ
  pub max_limit : ℤ
  pub max_offset : ℤ

abbrev pub default_query_limits : QueryLimits
default_query_limits = record {
  default_limit = pos 50;
  max_limit = pos 500;
  max_offset = pos 10000;
}

-- r.URL.Query().Get: a parameter that is not given is the empty text.
abbrev pub Values : Type 0
Values = Text → Text

unfoldable pub normalize_log_query : LogQuery → QueryLimits → LogQuery
normalize_log_query query limits =
    let limit = if leb_ℤ query.limit (pos 0) then limits.default_limit else query.limit in
    record query {
      app = trim_space query.app;
      level = trim_space query.level;
      text = trim_space query.text;
      limit = if ltb_ℤ limits.max_limit limit then limits.max_limit else limit;
      offset = if ltb_ℤ query.offset (pos 0) then pos 0 else query.offset;
    }

-- the cursor, which excludes an offset
read_after : Text → Text → Result ℕ
read_after cursor_raw offset_raw =
    if not (is_empty cursor_raw) && not (is_empty offset_raw)
    then err (failure (codes "cursor and offset cannot be combined"))
    else if is_empty cursor_raw
    then ok 0
    else decode_cursor cursor_raw

-- strconv.Atoi on a parameter that is given, and 0 for one that is not
accept_number : Text → ℤ × Option NumError → Result ℤ
accept_number message (n, none) = ok n
accept_number message (n, some e) = err (failure message)

read_number : Text → Text → Result ℤ
read_number message raw = if is_empty raw then ok (pos 0) else accept_number message (parse_int raw)

-- the bound on an offset
accept_offset : QueryLimits → ℤ → Result ℤ
accept_offset limits parsed =
    if ltb_ℤ limits.max_offset parsed
    then err (
        failure (
          codes "offset exceeds maximum of "
          ++ (format_int limits.max_offset ++ codes "; use cursor for deep pagination")))
    else ok parsed

read_offset : QueryLimits → Text → Result ℤ
read_offset limits raw =
    if is_empty raw
    then ok (pos 0)
    else read_number (codes "invalid offset") raw >>= accept_offset limits

-- the query that is normalized
raw_query : Unicode → Values → ℕ → ℤ → ℤ → LogQuery
raw_query u values after_index limit offset =
    let text = trim_space (values (codes "q")) in
    record {
      client_id = [];
      app = values (codes "app");
      level = values (codes "level");
      text = if is_empty text then trim_space (values (codes "text")) else text;
      limit = limit;
      offset = offset;
      after_index = after_index;
      want_total = equal_fold u (trim_space (values (codes "count"))) (codes "true");
    }

-- parseLogQuery
unfoldable pub parse_log_query : Unicode → Values → QueryLimits → Result LogQuery
unfolding read_after accept_number read_number read_offset accept_offset raw_query
parse_log_query u values limits =
    let offset_raw = trim_space (values (codes "offset")) in
    read_after (trim_space (values (codes "cursor"))) offset_raw >>= λ after_index.
    read_number (codes "invalid limit") (trim_space (values (codes "limit"))) >>= λ limit.
    read_offset limits offset_raw >>= λ offset.
    ok (normalize_log_query (raw_query u values after_index limit offset) limits)
