-- ===== src/Forwarder/Parser/Laws.antt =====
-- cmd/log-forwarder/parser.go: what every event carries.
use audit_logging.Common.{
  [], List, ◌∷◌, ◌≡◌, refl, subst, ◌⊎◌, inl, inr, Bool, true, false, Option, none, some,
  if◌then◌else◌,
}
use audit_logging.Text.{Text, codes, is_empty, equal}
use audit_logging.Text.Space.{trim_space, trim_space_idem}
use audit_logging.Text.Fold.{to_upper}
use audit_logging.Json.{Json, null, bool, num, str, arr, obj, Object}
use audit_logging.Server.Model.{Error, Result, ok, err, ok_injective}
use audit_logging.Forwarder.Config.{filled_or}
use audit_logging.Forwarder.Follower.{TailEvent}
use audit_logging.Forwarder.Parser.{
  Reader, LineParser, NormalizedEvent, Pattern, string_from_any, lookup, from_fields, with_base,
  json_event, try_json, regex_event, pattern_event, try_regex, fallback_plain, or_error, configured,
  parse_regex_only, parse_json_only, first_event, parse,
}

-- An event of a line: where it comes from; a level that is not empty and is the default or the upper case
-- of a text without spaces around it; and for a line that is not blank, a message that is not blank.
pub record Carries (w : Reader) (p : LineParser) (event : TailEvent) (line : Text)
    (x : NormalizedEvent) : Type 0 where
  pub app : x.app ≡ p.cfg.app_name
  pub file : x.source_file ≡ event.source_file
  pub offset : x.source_offset ≡ event.committed_offset
  pub raw : x.raw_line ≡ line
  pub level : is_empty x.level ≡ false
  pub upper :
      x.level ≡ p.cfg.default_level
      ⊎ ((s : Text) × (trim_space s ≡ s) × (x.level ≡ to_upper w.unicode s))
  pub message : is_empty (trim_space line) ≡ false → is_empty (trim_space x.message) ≡ false

-- stringFromAny gives trimmed texts
string_trimmed : (j : Json) → trim_space (string_from_any j) ≡ string_from_any j
unfolding string_from_any trim_space
string_trimmed (str s) = trim_space_idem s
string_trimmed null = refl
string_trimmed (bool b) = refl
string_trimmed (num n) = refl
string_trimmed (arr a) = refl
string_trimmed (obj o) = refl

filled_level : (s t : Text) → is_empty t ≡ false → is_empty (filled_or s t) ≡ false
filled_level [] t h = h
filled_level (c ∷ s) t h = refl

filled_message :
    (s t : Text)
    → trim_space s ≡ s
    → is_empty (trim_space t) ≡ false
    → is_empty (trim_space (filled_or s t)) ≡ false
filled_message [] t h k = k
filled_message (c ∷ s) t h k = rw h refl

chosen_level :
    (w : Reader) (p : LineParser) (s : Text)
    → trim_space s ≡ s
    → (t : Text) → t ≡ to_upper w.unicode s
    → filled_or t p.cfg.default_level ≡ p.cfg.default_level
      ⊎ ((s : Text) × (trim_space s ≡ s) × (filled_or t p.cfg.default_level ≡ to_upper w.unicode s))
chosen_level w p s h [] e = inl refl
chosen_level w p s h (b ∷ t) e = inr (s, h, e)

module _ (w : Reader) (p : LineParser) (event : TailEvent) (line : Text)
    (level : is_empty p.cfg.default_level ≡ false) where
  fields-Carries :
      (mode : Text) (m : Object) → Carries w p event line (from_fields w p event mode line m)
  unfolding from_fields with_base
  fields-Carries mode m = record {
    app = refl;
    file = refl;
    offset = refl;
    raw = refl;
    level =
        filled_level (to_upper w.unicode (string_from_any (lookup (codes "level") m)))
          p.cfg.default_level level;
    upper =
        chosen_level w p (string_from_any (lookup (codes "level") m))
          (string_trimmed (lookup (codes "level") m)) (to_upper w.unicode _) refl;
    message = λ filled.
        filled_message (string_from_any (lookup (codes "message") m)) line
          (string_trimmed (lookup (codes "message") m)) filled;
  }

  plain-Carries : Carries w p event line (fallback_plain w p event line)
  unfolding fallback_plain with_base
  plain-Carries = record {
    app = refl;
    file = refl;
    offset = refl;
    raw = refl;
    level = level;
    upper = inl refl;
    message = λ filled. filled;
  }

  -- An event that may be missing.
  Offered : Option NormalizedEvent → Type 0
  Offered none = Unit
  Offered (some x) = Carries w p event line x

  json-Offered : (o : Option Object) → Offered (json_event w p event line o)
  unfolding json_event Offered
  json-Offered none = tt
  json-Offered (some m) = fields-Carries (codes "json") m

  choice-Offered :
      (b : Bool) (o : Option NormalizedEvent) → Offered o → Offered (if b then none else o)
  unfolding Offered
  choice-Offered true o h = tt
  choice-Offered false o h = h

  try_json-Offered : Offered (try_json w p event line)
  unfolding try_json
  try_json-Offered = choice-Offered (is_empty line) _ (json-Offered (w.unmarshal line))

  regex-Offered :
      (re : Pattern) (o : Option (List Text)) → Offered (regex_event w p event line re o)
  unfolding regex_event Offered
  regex-Offered re none = tt
  regex-Offered re (some matches) = fields-Carries (codes "regex") _

  pattern-Offered : (o : Option Pattern) → Offered (pattern_event w p event line o)
  unfolding pattern_event Offered
  pattern-Offered none = tt
  pattern-Offered (some re) = regex-Offered re (re.submatches line)

  try_regex-Offered : Offered (try_regex w p event line)
  unfolding try_regex
  try_regex-Offered = pattern-Offered p.compiled

  -- A result that is an error or carries the line.
  Result-Carries : Result NormalizedEvent → Type 0
  Result-Carries (err e) = Unit
  Result-Carries (ok x) = Carries w p event line x

  first-Carries :
      (o o' : Option NormalizedEvent)
      → Offered o
      → Offered o'
      → Carries w p event line (first_event w p event o o' (fallback_plain w p event line))
  unfolding Offered
  first-Carries (some x) o' h k = h
  first-Carries none (some x) h k = k
  first-Carries none none h k = plain-Carries

  error-Carries :
      (message : Text) (o : Option NormalizedEvent)
      → Offered o
      → Result-Carries (or_error w p event message o)
  unfolding Offered Result-Carries
  error-Carries message none h = tt
  error-Carries message (some x) h = h

  configured-Carries : (o : Option Pattern) → Result-Carries (configured w p event line o)
  unfolding configured Result-Carries
  configured-Carries none = tt
  configured-Carries (some re) = error-Carries _ (try_regex w p event line) try_regex-Offered

  choice-Carries :
      (b : Bool) (x y : Result NormalizedEvent)
      → Result-Carries x
      → Result-Carries y
      → Result-Carries (if b then x else y)
  choice-Carries true x y h k = h
  choice-Carries false x y h k = k

  custom-Carries : Result-Carries (
      ok (
        first_event w p event
          (try_json w p event line)
          (try_regex w p event line)
          (fallback_plain w p event line)))
  unfolding Result-Carries
  custom-Carries =
      first-Carries (try_json w p event line) (try_regex w p event line) try_json-Offered
        try_regex-Offered

  json_only-Carries : Result-Carries (parse_json_only w p event line)
  unfolding parse_json_only
  json_only-Carries = error-Carries _ (try_json w p event line) try_json-Offered

  regex_only-Carries : Result-Carries (parse_regex_only w p event line)
  unfolding parse_regex_only
  regex_only-Carries = configured-Carries p.compiled

  unsupported-Carries : (message : Error) → Result-Carries (err message)
  unfolding Result-Carries
  unsupported-Carries message = tt

  accepted-Carries :
      (r : Result NormalizedEvent) (x : NormalizedEvent)
      → Result-Carries r
      → r ≡ ok x
      → Carries w p event line x
  unfolding Result-Carries
  accepted-Carries (err e) x h k = absurd cc
  accepted-Carries (ok y) x h k = subst (λ z. Carries w p event line z) (ok_injective k) h

module _ (w : Reader) (p : LineParser) (event : TailEvent) where
  -- the line, trimmed
  abbrev pub line_of : Text
  line_of = trim_space (w.text_of event.line)

  parsed-Carries :
      (level : is_empty p.cfg.default_level ≡ false)
      → Result-Carries w p event line_of level (parse w p event)
  unfolding parse
  parsed-Carries level =
      choice-Carries w p event line_of level (equal p.cfg.parser_mode (codes "json"))
        (parse_json_only w p event line_of) _ (json_only-Carries w p event line_of level)
        (choice-Carries w p event line_of level (equal p.cfg.parser_mode (codes "regex"))
          (parse_regex_only w p event line_of) _ (regex_only-Carries w p event line_of level)
          (choice-Carries w p event line_of level (equal p.cfg.parser_mode (codes "custom")) _ _
            (custom-Carries w p event line_of level)
            (unsupported-Carries w p event line_of level _)))

  custom_total :
      p.cfg.parser_mode ≡ codes "custom" → (x : NormalizedEvent) × (parse w p event ≡ ok x)
  unfolding parse equal
  custom_total h = (
    first_event w p event (try_json w p event line_of) (try_regex w p event line_of)
        (fallback_plain w p event line_of),
    simp h refl,
  )

  -- With a default level that is not empty, the event of a line carries the application, the file, the
  -- offset and the trimmed line; its level is not empty, and is the default or the upper case of a text
  -- without spaces around it; and its message is not blank where the line is not, whatever fields the line
  -- has. In the mode "custom" each line has an event.
  pub parse-Carries :
      (level : is_empty p.cfg.default_level ≡ false)
      → ((x : NormalizedEvent) → parse w p event ≡ ok x → Carries w p event line_of x)
        × (p.cfg.parser_mode ≡ codes "custom" → (x : NormalizedEvent) × (parse w p event ≡ ok x))
  parse-Carries level = (
    λ x h. accepted-Carries w p event line_of level (parse w p event) x (parsed-Carries level) h,
    custom_total,
  )
