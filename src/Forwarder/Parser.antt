-- ===== src/Forwarder/Parser.antt =====
-- cmd/log-forwarder/parser.go: a line of the log, made into an event.
pub mod Laws
use audit_logging.Common.{
  ℕ, [], List, ◌∷◌, ◌++◌, Bool, true, false, ◌||◌, Option, none, some, if◌then◌else◌,
}
use audit_logging.Common.Int.{ℤ}
use audit_logging.Text.{Text, codes, is_empty, equal}
use audit_logging.Text.Space.{trim_space}
use audit_logging.Text.Fold.{Unicode, to_upper}
use audit_logging.Json.{Json, null, bool, num, str, arr, obj, Object}
use audit_logging.Server.Model.{Error, failure, Result, ok, err}
use audit_logging.Forwarder.Checkpoint.{about}
use audit_logging.Forwarder.Config.{Config, filled_or}
use audit_logging.Forwarder.Follower.{TailEvent}

pub record NormalizedEvent : Type 0 where
  pub app : Text
  pub level : Text
  pub message : Text
  pub timestamp_raw : Text
  pub parser_mode : Text
  pub source_file : Text
  pub source_offset : ℤ
  pub raw_line : Text
  pub additional_fields : Object

-- The compiled pattern of a parser, if it has one: the submatches of a line, and the names of the groups.
pub record Pattern : Type 0 where
  pub submatches : Text → Option (List Text)
  pub names : List Text

pub record LineParser : Type 0 where
  pub cfg : Config
  pub compiled : Option Pattern

-- What the parser is given: the text that the bytes of a line stand for, json.Unmarshal into a map, each
-- key once, and regexp.Compile.
pub record Reader : Type 0 where
  pub unicode : Unicode
  pub text_of : List ℕ → Text
  pub unmarshal : Text → Option Object
  pub compile : Text → Result Pattern

abbrev compiled_by : Config → Result Pattern → Result LineParser
compiled_by cfg (ok p) = ok (record { cfg = cfg; compiled = some p })
compiled_by cfg (err e) = err (about (codes "compile regex pattern") e)

unfoldable pub new_line_parser : Reader → Config → Result LineParser
new_line_parser w cfg =
    if equal cfg.parser_mode (codes "regex")
    then compiled_by cfg (w.compile cfg.regex_pattern)
    else ok (record { cfg = cfg; compiled = none })

-- stringFromAny; a number is a float64 here, no json.Number
unfoldable pub string_from_any : Json → Text
string_from_any (str s) = trim_space s
string_from_any _ = []

-- m[key], which is nil where there is none
unfoldable pub lookup : Text → Object → Json
lookup key [] = null
lookup key ((k, v) ∷ m) = let rest = lookup key m in if equal k key then v else rest

-- delete(m, key)
unfoldable pub remove : Text → Object → Object
remove key [] = []
remove key ((k, v) ∷ m) = let rest = remove key m in if equal k key then rest else (k, v) ∷ rest

-- m[key] = value
unfoldable pub put : Text → Json → Object → Object
unfolding remove
put key value m = (key, value) ∷ remove key m

-- the groups with a name, behind the whole match
named_groups : List Text → List Text → Object → Object
unfolding put
named_groups (name ∷ names) (s ∷ ss) m =
    named_groups names ss (if is_empty name then m else put name (str s) m)
named_groups _ _ m = m

abbrev behind_first {ℓ} : {A : Type ℓ} → List A → List A
behind_first [] = []
behind_first (x ∷ xs) = xs

module _ (w : Reader) (p : LineParser) (event : TailEvent) where
  -- withBase, on an event of the given mode with its fields
  with_base : Text → Text → Text → Text → Text → Object → NormalizedEvent
  with_base level message timestamp mode line fields = record {
    app = p.cfg.app_name;
    level = level;
    message = message;
    timestamp_raw = timestamp;
    parser_mode = mode;
    source_file = event.source_file;
    source_offset = event.committed_offset;
    raw_line = line;
    additional_fields = fields;
  }

  -- what tryJSON and tryRegex make of the fields of a line
  unfoldable pub from_fields : Text → Text → Object → NormalizedEvent
  unfolding with_base
  from_fields mode line m =
      with_base
        (filled_or (to_upper w.unicode (string_from_any (lookup (codes "level") m)))
          p.cfg.default_level)
        (filled_or (string_from_any (lookup (codes "message") m)) line)
        (string_from_any (lookup p.cfg.timestamp_field m)) mode line
        (remove p.cfg.timestamp_field (remove (codes "level") (remove (codes "message") m)))

  json_event : Text → Option Object → Option NormalizedEvent
  json_event line none = none
  json_event line (some m) = some (from_fields (codes "json") line m)

  unfoldable pub try_json : Text → Option NormalizedEvent
  unfolding json_event
  try_json line = if is_empty line then none else json_event line (w.unmarshal line)

  regex_event : Text → Pattern → Option (List Text) → Option NormalizedEvent
  unfolding named_groups
  regex_event line re none = none
  regex_event line re (some matches) = some (
      from_fields (codes "regex") line
        (named_groups (behind_first re.names) (behind_first matches) []))

  pattern_event : Text → Option Pattern → Option NormalizedEvent
  unfolding regex_event
  pattern_event line none = none
  pattern_event line (some re) = regex_event line re (re.submatches line)

  unfoldable pub try_regex : Text → Option NormalizedEvent
  unfolding pattern_event
  try_regex line = pattern_event line p.compiled

  unfoldable pub fallback_plain : Text → NormalizedEvent
  unfolding with_base
  fallback_plain line =
      with_base p.cfg.default_level line [] (codes "plain") line
        ((codes "unparsed", bool true) ∷ [])

  -- the event, or an error
  abbrev pub or_error : Text → Option NormalizedEvent → Result NormalizedEvent
  or_error message none = err (failure message)
  or_error message (some e) = ok e

  configured : Text → Option Pattern → Result NormalizedEvent
  configured line none = err (failure (codes "regex parser not configured"))
  configured line (some re) = or_error (codes "regex parser could not parse line") (try_regex line)

  unfoldable pub parse_regex_only : Text → Result NormalizedEvent
  unfolding configured
  parse_regex_only line = configured line p.compiled

  unfoldable pub parse_json_only : Text → Result NormalizedEvent
  parse_json_only line = or_error (codes "json parser could not parse line") (try_json line)

  -- the first that fits, or the line as it is
  abbrev pub first_event :
      Option NormalizedEvent → Option NormalizedEvent → NormalizedEvent → NormalizedEvent
  first_event (some e) _ plain = e
  first_event none (some e) plain = e
  first_event none none plain = plain

  -- Parse
  unfoldable pub parse : Result NormalizedEvent
  parse =
      let line = trim_space (w.text_of event.line) in
      let mode = p.cfg.parser_mode in
      if equal mode (codes "json")
      then parse_json_only line
      else if equal mode (codes "regex")
      then parse_regex_only line
      else if equal mode (codes "custom")
      then ok (first_event (try_json line) (try_regex line) (fallback_plain line))
      else err (failure (codes "unsupported parser_mode: " ++ mode))
