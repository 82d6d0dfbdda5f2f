-- ===== src/Tests/Dashboard.antt =====
-- A scan with a report that cannot be read, its headline, and the schedule of one task.
use audit_logging.Common.{[], ◌∷◌, ◌≡◌, ◌↔◌, refl, true, false, none, some, All, ◌+◌, Option, ◌-◌}
use audit_logging.Common.Int.{ℤ, pos}
use audit_logging.Text.{Text, codes, equal, contains, is_empty}
use audit_logging.Text.Space.{trim_space}
use audit_logging.Text.Fold.{ascii_only, to_lower}
use audit_logging.Dashboard.Checks.{CheckDef, CheckResult, pass, fail}
use audit_logging.Dashboard.Checks.Counts.{Tools}
use audit_logging.Dashboard.Checks.Scan.{Shell, unset}
use audit_logging.Dashboard.Checks.Unread.{npm}
use audit_logging.Dashboard.Tasks.{
  Task, Calendar, task_status, override_of, parse_task_date, interval_of, cadence_days, fine,
}
use audit_logging.Dashboard.Tasks.Laws.{fresh_state, task_status-mark}
use audit_logging.Dashboard.Tasks.Tally.{
  summarize_tasks, in_buckets, uncounted, CalmTask, summarize_tasks_lem,
}
use audit_logging.Dashboard.Tasks.Done.{mark}

-- Tools that can read nothing.
abbrev pub blind : Tools
blind = record {
  affected = λ s. none;
  leaks = λ s. none;
  vulnerabilities = λ s. 0;
  test_fails = λ s. 0;
  test_ok = λ s. false;
  object = λ s. none;
  array = λ s. none;
  sarif = λ s. none;
  eslint = λ s. none;
  vitest = λ s. none;
  npm = λ s. none;
  is_high = λ s. none;
}

abbrev pub shell : Shell
shell = record {
  look_path = λ s. true;
  stat = λ s. true;
  execute = λ dir command. record {
    stdout = codes "npm ERR!";
    stderr = [];
    error = none;
    duration_ms = pos 5;
  };
  report_path = λ s. s;
}

abbrev pub audit : CheckDef
audit = record {
  key = codes "audit";
  name = [];
  category = [];
  tool = [];
  gating = true;
  command = codes "npm audit";
  parser = codes "npm-audit";
  dir = [];
  install_hint = [];
  probe = [];
  suppress = [];
  source = [];
  disabled = false;
  reason = [];
}

abbrev passed : CheckResult
passed = record (unset audit) { status = pass }

abbrev failed : CheckResult
failed = record (unset audit) { status = fail }

-- Days are numbers from the epoch on, written with one code point.
abbrev pub parse_day : Text → Text → Option ℤ
parse_day layout [] = none
parse_day layout (c ∷ s) = some (pos c)

abbrev pub plus : ℤ → ℤ → ℤ
plus (pos a) (pos b) = pos (a + b)
plus a _ = a

abbrev pub minus : ℤ → ℤ → ℤ
minus (pos a) (pos b) = pos (a - b)
minus a _ = a

abbrev pub calendar : Calendar
calendar = record {
  parse = parse_day;
  add_days = plus;
  format = λ d. codes "D";
  days_until = minus;
}

abbrev pub review : Task
review = record {
  id = codes "r1";
  title = [];
  category = [];
  cadence = codes "Weekly";
  owner = [];
  status = codes "pending";
  last_run = [];
  next_due = [];
  doc_anchor = [];
  notes = [];
  last_note = [];
  interval_days = pos 0;
  source = [];
}

by_hand : override_of ascii_only review.status ≡ none
unfolding override_of trim_space to_lower equal
by_hand = refl

pub read_day : parse_task_date calendar (codes "d") ≡ some (pos 100)
unfolding parse_task_date trim_space
read_day = refl

has_date : is_empty (trim_space (codes "d")) ≡ false
unfolding trim_space
has_date = refl

counted :
    minus (plus (pos 100) (interval_of ascii_only calendar review)) (pos 100)
    ≡ interval_of ascii_only calendar review
unfolding cadence_days to_lower contains
counted = refl

task_status-mark_example :
    (task_status ascii_only calendar (mark ascii_only (codes "d") [] [] review) (pos 100)).state
    ≡ fresh_state (interval_of ascii_only calendar review)
task_status-mark_example =
    task_status-mark ascii_only calendar (codes "d") [] [] review (pos 100) by_hand has_date
      read_day counted

summarize_tasks_lem_example :
    (in_buckets (summarize_tasks ascii_only calendar (review ∷ []) (pos 100)).counts
        + uncounted ascii_only calendar (pos 100) (review ∷ [])
      ≡ 1)
    × (((summarize_tasks ascii_only calendar (review ∷ []) (pos 100)).class ≡ fine)
        ↔ All (CalmTask ascii_only calendar (pos 100)) (review ∷ []))
summarize_tasks_lem_example = summarize_tasks_lem ascii_only calendar (pos 100) (review ∷ [])
