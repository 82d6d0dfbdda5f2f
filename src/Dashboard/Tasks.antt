-- ===== src/Dashboard/Tasks.antt =====
-- cmd/security-dashboard/tasks.go: the freshness of the manual tasks.
pub mod Done
pub mod Laws
pub mod Tally
use audit_logging.Common.{
  ℕ, ◌+◌, [], List, ◌∷◌, ◌++◌, Bool, true, false, not, ◌||◌, Option, none, some, leb, ltb, length,
  if◌then◌else◌,
}
use audit_logging.Common.Int.{ℤ, pos, negsuc, ltb_ℤ, leb_ℤ, sub_int64}
use audit_logging.Text.{Text, codes, is_empty, equal, contains}
use audit_logging.Text.Space.{trim_space}
use audit_logging.Text.Fold.{Unicode, to_lower}
use audit_logging.Text.Decimal.{format_uint}
use audit_logging.Dashboard.Words.{plural}

pub record Task : Type 0 where
  pub id : Text
  pub title : Text
  pub category : Text
  pub cadence : Text
  pub owner : Text
  pub status : Text
  pub last_run : Text
  pub next_due : Text
  pub doc_anchor : Text
  pub notes : Text
  pub last_note : Text
  pub interval_days : ℤ
  pub source : Text

-- The functions of the package time, on the days that a truncated time stands for: Parse by layout and
-- then Truncate, AddDate by days, Format by "2006-01-02", and the whole days that due.Sub(today) has.
pub record Calendar : Type 0 where
  pub parse : Text → Text → Option ℤ
  pub add_days : ℤ → ℤ → ℤ
  pub format : ℤ → Text
  pub days_until : ℤ → ℤ → ℤ

-- dueSoonDays
abbrev pub due_soon_days : ℤ
due_soon_days = pos 14

-- The texts of `State`, one constructor each.
pub data TaskState : Type 0 where
  current due_soon overdue never event waived blocked unknown automated : TaskState

-- The texts of `Class`.
pub data Class : Type 0 where
  fine warn bad muted : Class

pub record TaskView : Type 0 where
  pub task : Task
  pub due : Text
  pub due_label : Text
  pub state : TaskState
  pub state_label : Text
  pub class : Class

module _ (u : Unicode) where
  unfoldable pub cadence_days : Text → ℤ
  cadence_days cadence =
      let c = to_lower u cadence in
      if contains c (codes "weekly")
      then pos 7
      else if contains c (codes "semi-annual")
          || contains c (codes "semiannual")
          || contains c (codes "biannual")
          || contains c (codes "6 months")
          || contains c (codes "six months")
      then pos 182
      else if contains c (codes "monthly")
      then pos 30
      else if contains c (codes "quarterly")
      then pos 90
      else if contains c (codes "annual") || contains c (codes "yearly")
      then pos 365
      else pos 0

  unfoldable pub event_label : Text → Text
  event_label cadence =
      if contains (to_lower u cadence) (codes "pr") then codes "per PR" else codes "per release"

  unfoldable pub event_due_label : Text → Text
  event_due_label cadence =
      if contains (to_lower u cadence) (codes "pr") then codes "each PR" else codes "each release"

  -- the states that the status field sets by hand
  unfoldable pub override_of : Text → Option TaskState
  override_of status =
      let s = to_lower u (trim_space status) in
      if equal s (codes "automated")
      then some automated
      else if equal s (codes "waived")
          || equal s (codes "n/a")
          || equal s (codes "na")
          || equal s (codes "not applicable")
      then some waived
      else if equal s (codes "blocked")
      then some blocked
      else none

  unfoldable pub is_placeholder_status : Text → Bool
  is_placeholder_status status =
      let s = to_lower u (trim_space status) in
      is_empty s
      || equal s (codes "pending")
      || equal s (codes "in-progress")
      || equal s (codes "in progress")

unfoldable pub in_days : ℤ → Text
in_days (pos n) =
    if leb n 0 then codes "today" else codes "in " ++ plural (pos n) (codes "day") (codes "days")
in_days (negsuc n) = codes "in " ++ plural (negsuc n) (codes "day") (codes "days")

-- the first layout that fits
abbrev first_some : Option ℤ → Option ℤ → Option ℤ
first_some none o = o
first_some (some d) _ = some d

unfoldable pub parse_task_date : Calendar → Text → Option ℤ
parse_task_date k s =
    let s = trim_space s in
    first_some (k.parse (codes "2006-01-02") s) (
      first_some (k.parse (codes "2006-01-02T15:04:05Z07:00") s)
        (k.parse (codes "2006-01-02T15:04:05") s))

-- a view of a task that has no due date
abbrev pub undated : Task → TaskState → Text → Class → Text → TaskView
undated t state state_label class due_label = record {
  task = t;
  due = [];
  due_label = due_label;
  state = state;
  state_label = state_label;
  class = class;
}

module _ (u : Unicode) (k : Calendar) where
  -- a view of a task that is due on a day, with the days that are left until then
  unfoldable pub dated : Task → ℤ → ℤ → TaskView
  dated t due days =
      let day = k.format due in
      if ltb_ℤ days (pos 0)
      then record {
        task = t;
        due = day;
        due_label = day;
        state = overdue;
        state_label =
            codes "overdue " ++ plural (sub_int64 (pos 0) days) (codes "day") (codes "days");
        class = bad;
      }
      else if leb_ℤ days due_soon_days
      then record {
        task = t;
        due = day;
        due_label = day ++ (codes " (" ++ (in_days days ++ codes ")"));
        state = due_soon;
        state_label = codes "due soon";
        class = warn;
      }
      else record {
        task = t;
        due = day;
        due_label = day;
        state = current;
        state_label = codes "current";
        class = fine;
      }

  unreadable : Task → TaskView
  unreadable t = undated t unknown (codes "date unreadable") warn (codes "—")

  -- the interval that counts
  abbrev pub interval_of : Task → ℤ
  interval_of t =
      if leb_ℤ t.interval_days (pos 0) then cadence_days u t.cadence else t.interval_days

  -- the day that was agreed on, if it can be read
  agreed : Task → ℤ → Option ℤ → TaskView
  unfolding unreadable
  agreed t today none = unreadable t
  agreed t today (some due) = dated t due (k.days_until due today)

  -- a task that was last done on a day
  scheduled : Task → ℤ → Option ℤ → TaskView
  unfolding agreed unreadable
  scheduled t today none = unreadable t
  scheduled t today (some last) =
      let due = k.add_days last (interval_of t) in
      if not (is_empty (trim_space t.next_due))
      then agreed t today (parse_task_date k t.next_due)
      else if ltb_ℤ (pos 0) (interval_of t)
      then dated t due (k.days_until due today)
      else undated t event (event_label u t.cadence) muted (event_due_label u t.cadence)

  -- a task whose state the status field sets, or none
  overridden : Task → ℤ → Option TaskState → TaskView
  unfolding scheduled
  overridden t today (some automated) =
      undated t automated (codes "automated") fine (codes "every scan")
  overridden t today (some blocked) = undated t blocked (codes "blocked") bad (codes "—")
  overridden t today (some state) = undated t state (codes "waived") muted (codes "—")
  overridden t today none =
      if is_empty (trim_space t.last_run)
      then undated t never (codes "never run") bad (codes "—")
      else scheduled t today (parse_task_date k t.last_run)

  -- taskStatus, with today's date
  unfoldable pub task_status : Task → ℤ → TaskView
  unfolding overridden
  task_status t today = overridden t today (override_of u t.status)
