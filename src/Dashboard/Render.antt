-- ===== src/Dashboard/Render.antt =====
-- cmd/security-dashboard/render.go and badge.go: the headline, the words and the groups of the page.
pub mod Laws
use audit_logging.Common.{
  ℕ, zero, suc, ◌+◌, [], List, ◌∷◌, ◌++◌, Bool, true, false, ◌||◌, Option, none, some, take, select,
  length, leb, ltb, ◌==◌, if◌then◌else◌,
}
use audit_logging.Common.Int.{ℤ, pos}
use audit_logging.Text.{Text, codes, is_empty, equal}
use audit_logging.Text.Fold.{Unicode}
use audit_logging.Dashboard.Words.{plural}
use audit_logging.Dashboard.Tasks.{Task, TaskView, Calendar, task_status}
use audit_logging.Dashboard.Checks.{CheckResult, Status, pass, fail, warn, skipped, errored, Totals}

-- The codes of the headline.
pub data Colour : Type 0 where
  red amber green : Colour

pub record Posture : Type 0 where
  pub code : Colour
  pub label : Text
  pub note : Text

unfoldable pub posture : Totals → Posture
posture t =
    if ltb 0 t.gating_fail
    then record {
      code = red;
      label = codes "Action required";
      note =
          plural (pos t.gating_fail) (codes "gating check failing") (codes "gating checks failing");
    }
    else if ltb 0 t.fail
    then record {
      code = amber;
      label = codes "Passing with issues";
      note = plural (pos t.fail) (codes "non-gating failure") (codes "non-gating failures");
    }
    else if ltb 0 t.warn || ltb 0 t.skipped
    then record {
      code = amber;
      label = codes "Passing with advisories";
      note = codes "advisories and/or checks awaiting enablement";
    }
    else record {
      code = green;
      label = codes "All checks passing";
      note = codes "every configured check is green";
    }

-- statusToClass
unfoldable pub status_to_class : Status → Text
status_to_class pass = codes "ok"
status_to_class fail = codes "bad"
status_to_class errored = codes "bad"
status_to_class warn = codes "warn"
status_to_class skipped = codes "muted"

-- CheckResult.StatusLabel
unfoldable pub status_label : Status → Text
status_label pass = codes "Pass"
status_label fail = codes "Fail"
status_label errored = codes "Fail"
status_label warn = codes "Advisory"
status_label skipped = codes "Not run"

unfoldable pub rel_from_security : Text → Text
rel_from_security p = if is_empty p then [] else codes "../" ++ p

-- the items in the opposite order
unfoldable pub reversed {ℓ} : {A : Type ℓ} → List A → List A
reversed [] = []
reversed (x ∷ xs) = reversed xs ++ (x ∷ [])

-- trendRuns, for a number of runs that is not negative
unfoldable pub trend_runs {ℓ} : {A : Type ℓ} → List A → ℕ → List A
unfolding reversed
trend_runs runs n = reversed (take n runs)

-- badge.go: textWidth, without wrap-around for a label of any length that a badge has
char_width : ℕ → ℕ
char_width c =
    if c == b'i' || c == b'l' || c == b'j' || c == b'.' || c == b' '
    then 3
    else if c == b'm' || c == b'w'
    then 9
    else 7

unfoldable pub text_width : Text → ℕ
unfolding char_width
text_width [] = 0
text_width (c ∷ s) = char_width c + text_width s

-- The checks of a category, in order, under its name.
pub record CategoryGroup : Type 0 where
  pub name : Text
  pub checks : List CheckResult

unfoldable pub has_text : Text → List Text → Bool
has_text s [] = false
has_text s (t ∷ ts) = equal t s || has_text s ts

-- the categories as they first occur
categories : List CheckResult → List Text → List Text
categories [] seen = seen
categories (c ∷ cs) seen =
    categories cs (if has_text c.def.category seen then seen else seen ++ (c.def.category ∷ []))

unfoldable pub in_category : Text → List CheckResult → List CheckResult
in_category name [] = []
in_category name (c ∷ cs) =
    let rest = in_category name cs in if equal c.def.category name then c ∷ rest else rest

groups_of : List Text → List CheckResult → List CategoryGroup
groups_of [] checks = []
groups_of (name ∷ names) checks =
    record { name = name; checks = in_category name checks } ∷ groups_of names checks

-- groupByCategory; sort.Strings is a parameter.
unfoldable pub group_by_category : (List Text → List Text) → List CheckResult → List CategoryGroup
unfolding categories groups_of
group_by_category sort checks = groups_of (sort (categories checks [])) checks

-- taskGroup: the views of the tasks of one cadence
pub record TaskGroup : Type 0 where
  pub cadence : Text
  pub tasks : List TaskView

-- the cadences that come first
abbrev pub cadence_order : List Text
cadence_order =
    codes "Every release"
    ∷ codes "Every PR"
    ∷ codes "Quarterly"
    ∷ codes "Quarterly + on federation changes"
    ∷ []

-- the other cadences as they first occur, behind those that came before
extra_cadences : List Task → List Text → List Text
extra_cadences [] extra = extra
extra_cadences (t ∷ ts) extra = extra_cadences ts (
    if has_text t.cadence cadence_order || has_text t.cadence extra
    then extra
    else extra ++ (t.cadence ∷ []))

views_of : Unicode → Calendar → ℤ → Text → List Task → List TaskView
views_of u k today cadence [] = []
views_of u k today cadence (t ∷ ts) =
    let rest = views_of u k today cadence ts in
    if equal t.cadence cadence then task_status u k t today ∷ rest else rest

-- a group that has tasks, in front of the others
in_front : Text → List TaskView → List TaskGroup → List TaskGroup
in_front cadence [] groups = groups
in_front cadence (v ∷ vs) groups = record { cadence = cadence; tasks = v ∷ vs } ∷ groups

task_groups : Unicode → Calendar → ℤ → List Task → List Text → List TaskGroup
unfolding in_front views_of
task_groups u k today tasks [] = []
task_groups u k today tasks (c ∷ cs) =
    in_front c (views_of u k today c tasks) (task_groups u k today tasks cs)

-- groupTasks; no cadence stands twice among those that are gone through, so that `seen` holds none of them
unfoldable pub group_tasks : Unicode → Calendar → List Task → ℤ → List TaskGroup
unfolding task_groups extra_cadences
group_tasks u k tasks today = task_groups u k today tasks (cadence_order ++ extra_cadences tasks [])
