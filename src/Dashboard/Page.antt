-- ===== src/Dashboard/Page.antt =====
-- cmd/security-dashboard/render.go and badge.go: the page and the badge that `render` writes.
use audit_logging.Common.{
  ℕ, ◌+◌, ◌/◌, [], List, ◌∷◌, ◌++◌, map, Bool, ◌||◌, Option, none, some, take, contains_func, ◌==◌,
  if◌then◌else◌,
}
use audit_logging.Common.Int.{ℤ}
use audit_logging.Text.{Text, codes, equal}
use audit_logging.Text.Fold.{Unicode, equal_fold}
use audit_logging.Text.Order.{sort_texts}
use audit_logging.Text.Decimal.{format_uint}
use audit_logging.Server.Model.{Error}
use audit_logging.Dashboard.Tasks.{Task, Calendar}
use audit_logging.Dashboard.Tasks.Tally.{TaskSummary, summarize_tasks}
use audit_logging.Dashboard.Checks.{Totals}
use audit_logging.Dashboard.Config.{Config, Asvs, Conformance, ComplianceDoc, Standard}
use audit_logging.Dashboard.Runs.{Run}
use audit_logging.Dashboard.Render.{
  red, amber, green, posture, Colour, rel_from_security, trend_runs, CategoryGroup,
  group_by_category, TaskGroup, group_tasks, text_width,
}

pub record FrameworkRow : Type 0 where
  pub id : Text
  pub title : Text
  pub href : Text
  pub mapped : Bool

-- `posture` has no code while there is no run.
pub record View : Type 0 where
  pub cfg : Config
  pub latest : Option Run
  pub categories : List CategoryGroup
  pub history : List Run
  pub trend : List Run
  pub tasks : List Task
  pub task_groups : List TaskGroup
  pub task_summary : TaskSummary
  pub asvs : Option Asvs
  pub conformance : List Conformance
  pub posture : Option Colour
  pub posture_label : Text
  pub posture_note : Text
  pub generated_at : Text
  pub manual_href : Text
  pub frameworks : List FrameworkRow

-- The clock, the tables of unicode and the package time, the package html/template, and the errors of the
-- files: the template's parse error, the text that Execute writes with its error, of os.Create, of Close,
-- and of the badge's os.WriteFile, with the bytes that reach the file if it could be opened.
pub record PageEnv : Type 0 where
  pub unicode : Unicode
  pub calendar : Calendar
  pub today : ℤ
  pub generated_at : Text
  pub parse_error : Option Error
  pub execute : View → Text × Option Error
  pub create_error : Option Error
  pub close_error : Option Error
  pub badge_error : Option (Error × Option ℕ)

pub record Pages : Type 0 where
  pub badge : Option Text
  pub dashboard : Option Text

-- html.EscapeString
escape_char : ℕ → Text
escape_char c =
    if c == b'<'
    then codes "&lt;"
    else if c == b'>'
    then codes "&gt;"
    else if c == b'&'
    then codes "&amp;"
    else if c == b'\''
    then codes "&#39;"
    else if c == b'"'
    then codes "&#34;"
    else c ∷ []

unfoldable pub escape_string : Text → Text
unfolding escape_char
escape_string [] = []
escape_string (c ∷ s) = escape_char c ++ escape_string s

-- the words and the colour of the badge
colour_words : Totals → Colour → Text × Text
colour_words t green = (codes "passing", codes "#2ea44f")
colour_words t amber = (format_uint (t.warn + t.fail) ++ codes " advisories", codes "#dbab09")
colour_words t red = (codes "action required", codes "#d73a49")

unfoldable pub badge_words : Option Run → Text × Text
unfolding colour_words
badge_words none = (codes "no scans", codes "#6a737d")
badge_words (some r) = colour_words r.totals (posture r.totals).code

-- one line of text, at a place, with its shadow
badge_text : ℕ → Text → Text
badge_text x s =
    codes "    <text x=\""
    ++ (format_uint x
        ++ (codes "\" y=\"15\" fill=\"#010101\" fill-opacity=\".3\">"
            ++ (s
                ++ (codes "</text>\n    <text x=\""
                    ++ (format_uint x ++ (codes "\" y=\"14\">" ++ (s ++ codes "</text>\n")))))))

concat : List Text → Text
concat [] = []
concat (s ∷ ss) = s ++ concat ss

unfoldable pub badge_svg : Option Run → Text
unfolding badge_text concat
badge_svg latest =
    let label = codes "security & quality" in
    let (msg, color) = badge_words latest in
    let lw = text_width label + 20 in
    let mw = text_width msg + 20 in
    let total = format_uint (lw + mw) in
    let l = escape_string label in
    let m = escape_string msg in
    concat (
      codes "<svg xmlns=\"http://www.w3.org/2000/svg\" width=\""
      ∷ total
      ∷ codes "\" height=\"20\" role=\"img\" aria-label=\""
      ∷ l
      ∷ codes ": "
      ∷ m
      ∷ codes "\">\n  <title>"
      ∷ l
      ∷ codes ": "
      ∷ m
      ∷ codes
          "</title>\n  <linearGradient id=\"s\" x2=\"0\" y2=\"100%\"><stop offset=\"0\" stop-color=\"#bbb\" stop-opacity=\".1\"/><stop offset=\"1\" stop-opacity=\".1\"/></linearGradient>\n  <clipPath id=\"r\"><rect width=\""
      ∷ total
      ∷ codes
          "\" height=\"20\" rx=\"3\" fill=\"#fff\"/></clipPath>\n  <g clip-path=\"url(#r)\">\n    <rect width=\""
      ∷ format_uint lw
      ∷ codes "\" height=\"20\" fill=\"#555\"/>\n    <rect x=\""
      ∷ format_uint lw
      ∷ codes "\" width=\""
      ∷ format_uint mw
      ∷ codes "\" height=\"20\" fill=\""
      ∷ color
      ∷ codes "\"/>\n    <rect width=\""
      ∷ total
      ∷ codes
          "\" height=\"20\" fill=\"url(#s)\"/>\n  </g>\n  <g fill=\"#fff\" text-anchor=\"middle\" font-family=\"Verdana,Geneva,DejaVu Sans,sans-serif\" font-size=\"11\">\n"
      ∷ badge_text (lw / 2) l
      ∷ badge_text (lw + mw / 2) m
      ∷ codes "  </g>\n</svg>\n"
      ∷ [])

-- os.WriteFile of the badge
unfoldable pub write_badge :
    Option Run → Option (Error × Option ℕ) → Option Text → Option Error × Option Text
write_badge latest none old = (none, some (badge_svg latest))
write_badge latest (some (e, none)) old = (some e, old)
write_badge latest (some (e, some n)) old = (some e, some (take n (badge_svg latest)))

framework_row : Unicode → List Standard → ComplianceDoc → FrameworkRow
framework_row u standards d = record {
  id = d.id;
  title = d.title;
  href = rel_from_security d.path;
  mapped = contains_func (λ st. equal st.framework d.id || equal_fold u st.name d.title) standards;
}

-- the view while no run is recorded
blank_view : PageEnv → Config → List Task → View
unfolding framework_row
blank_view v cfg tasks = record {
  cfg = cfg;
  latest = none;
  categories = [];
  history = [];
  trend = [];
  tasks = tasks;
  task_groups = group_tasks v.unicode v.calendar tasks v.today;
  task_summary = summarize_tasks v.unicode v.calendar tasks v.today;
  asvs = cfg.asvs;
  conformance = cfg.conformance;
  posture = none;
  posture_label = codes "No scans yet";
  posture_note = codes "Run: go run ./cmd/security-dashboard scan";
  generated_at = v.generated_at;
  manual_href = rel_from_security cfg.manual_doc;
  frameworks = map (framework_row v.unicode cfg.standards) cfg.compliance_docs;
}

unfoldable pub view_of : PageEnv → Config → List Run → List Task → View
unfolding blank_view
view_of v cfg [] tasks = blank_view v cfg tasks
view_of v cfg (r ∷ rs) tasks =
    let p = posture r.totals in
    record (blank_view v cfg tasks) {
      latest = some r;
      categories = group_by_category sort_texts r.checks;
      history = r ∷ rs;
      trend = trend_runs (r ∷ rs) 14;
      posture = some p.code;
      posture_label = p.label;
      posture_note = p.note;
    }

abbrev or_error : Option Error → Option Error → Option Error
or_error (some e) f = some e
or_error none f = f

-- os.Create, Execute and Close
created : PageEnv → View → Pages → Option Error → Option Error × Pages
created v view pages (some e) = (some e, pages)
created v view pages none =
    let (text, e) = v.execute view in
    (or_error e v.close_error, record pages { dashboard = some text })

parsed_page : PageEnv → View → Pages → Option Error → Option Error × Pages
unfolding created
parsed_page v view pages (some e) = (some e, pages)
parsed_page v view pages none = created v view pages v.create_error

badged : PageEnv → View → Pages → Option Error × Option Text → Option Error × Pages
unfolding parsed_page
badged v view pages (some e, badge) = (some e, record pages { badge = badge })
badged v view pages (none, badge) =
    parsed_page v view (record pages { badge = badge }) v.parse_error

unfoldable pub render : PageEnv → Config → List Run → List Task → Pages → Option Error × Pages
unfolding badged
render v cfg runs tasks pages =
    let view = view_of v cfg runs tasks in
    badged v view pages (write_badge view.latest v.badge_error pages.badge)
