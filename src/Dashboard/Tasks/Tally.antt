-- ===== src/Dashboard/Tasks/Tally.antt =====
-- cmd/security-dashboard/tasks.go: summarizeTasks, the verdict on the schedule.
use audit_logging.Common.{
  ℕ, ◌+◌, [], List, ◌∷◌, ◌++◌, ◌≡◌, ◌↔◌, ◌||◌, ltb, length, arith, All, if◌then◌else◌,
}
use audit_logging.Common.Int.{ℤ, pos}
use audit_logging.Text.{Text, codes}
use audit_logging.Text.Fold.{Unicode}
use audit_logging.Text.Decimal.{format_uint}
use audit_logging.Dashboard.Words.{plural}
use audit_logging.Dashboard.Tasks.{
  Task, Calendar, TaskState, current, due_soon, overdue, never, event, waived, blocked, unknown,
  automated, Class, fine, warn, bad, task_status,
}

-- The counts of taskSummary.
pub record Counts : Type 0 where
  pub total : ℕ
  pub tracked : ℕ
  pub current : ℕ
  pub due_soon : ℕ
  pub overdue : ℕ
  pub never : ℕ

-- taskSummary
pub record TaskSummary : Type 0 where
  pub counts : Counts
  pub line : Text
  pub class : Class

-- one task counted by its state
unfoldable pub count_state : TaskState → Counts → Counts
count_state current s = record s { tracked = s.tracked + 1; current = s.current + 1 }
count_state event s = record s { tracked = s.tracked + 1; current = s.current + 1 }
count_state automated s = record s { current = s.current + 1 }
count_state due_soon s = record s { tracked = s.tracked + 1; due_soon = s.due_soon + 1 }
count_state overdue s = record s { tracked = s.tracked + 1; overdue = s.overdue + 1 }
count_state blocked s = record s { tracked = s.tracked + 1; overdue = s.overdue + 1 }
count_state never s = record s { tracked = s.tracked + 1; never = s.never + 1 }
count_state waived s = s
count_state unknown s = record s { tracked = s.tracked + 1 }

-- strings.Join(parts, " · ")
join_parts : List Text → Text
join_parts [] = []
join_parts (s ∷ []) = s
join_parts (s ∷ t ∷ ss) = s ++ (codes " · " ++ join_parts (t ∷ ss))

abbrev part : ℕ → Text → List Text
part n what = if ltb 0 n then (format_uint n ++ what) ∷ [] else []

abbrev parts_of : Counts → List Text
parts_of s =
    part s.overdue (codes " overdue")
    ++ (part s.never (codes " never recorded") ++ part s.due_soon (codes " due soon"))

line_of : Counts → List Text → Text
unfolding join_parts
line_of s [] = plural (pos s.tracked) (codes "task") (codes "tasks") ++ codes " on schedule"
line_of s (p ∷ ps) =
    join_parts (p ∷ ps)
    ++ (codes " of "
        ++ (format_uint s.tracked
            ++ codes " tracked tasks — run them, automate them, or waive them"))

unfoldable pub class_of : Counts → Class
class_of s =
    if ltb 0 s.overdue || ltb 0 s.never then bad else if ltb 0 s.due_soon then warn else fine

unfoldable pub count_tasks : Unicode → Calendar → ℤ → List Task → Counts → Counts
count_tasks u k today [] s = s
count_tasks u k today (t ∷ ts) s =
    count_tasks u k today ts (count_state (task_status u k t today).state s)

abbrev pub no_counts : ℕ → Counts
no_counts n = record { total = n; tracked = 0; current = 0; due_soon = 0; overdue = 0; never = 0 }

unfoldable pub summarize_tasks : Unicode → Calendar → List Task → ℤ → TaskSummary
unfolding line_of
summarize_tasks u k tasks today =
    let s = count_tasks u k today tasks (no_counts (length tasks)) in
    record { counts = s; line = line_of s (parts_of s); class = class_of s }

-- A state that the verdict says nothing against.
abbrev pub IsCalm : TaskState → Type 0
IsCalm due_soon = ⊥
IsCalm overdue = ⊥
IsCalm blocked = ⊥
IsCalm never = ⊥
IsCalm _ = Unit

-- How many tasks are in no bucket.
abbrev pub off_count : TaskState → ℕ
off_count waived = 1
off_count unknown = 1
off_count _ = 0

unfoldable pub uncounted : Unicode → Calendar → ℤ → List Task → ℕ
uncounted u k today [] = 0
uncounted u k today (t ∷ ts) = off_count (task_status u k t today).state + uncounted u k today ts

-- what the buckets hold
abbrev pub in_buckets : Counts → ℕ
in_buckets s = s.current + s.due_soon + s.overdue + s.never

-- what the verdict counts against the schedule
abbrev trouble : Counts → ℕ
trouble s = s.due_soon + s.overdue + s.never

module _ (u : Unicode) (k : Calendar) (today : ℤ) where
  state-buckets :
      (x : TaskState) (s : Counts) → in_buckets (count_state x s) + off_count x ≡ in_buckets s + 1
  unfolding count_state
  state-buckets current s = omega arith
  state-buckets event s = omega arith
  state-buckets automated s = omega arith
  state-buckets due_soon s = omega arith
  state-buckets overdue s = omega arith
  state-buckets blocked s = omega arith
  state-buckets never s = omega arith
  state-buckets waived s = omega arith
  state-buckets unknown s = omega arith

  tasks-buckets :
      (ts : List Task) (s : Counts)
      → in_buckets (count_tasks u k today ts s) + uncounted u k today ts ≡ in_buckets s + length ts
  unfolding count_tasks uncounted
  tasks-buckets [] s = omega arith
  tasks-buckets (t ∷ ts) s =
      let x = (task_status u k t today).state in
      omega (arith, tasks-buckets ts (count_state x s), state-buckets x s)

  count_state-IsCalm :
      (x : TaskState) (s : Counts) → (trouble (count_state x s) ≡ 0) ↔ (IsCalm x × (trouble s ≡ 0))
  unfolding count_state
  count_state-IsCalm current s = (λ h. (tt, h), λ h. h.1)
  count_state-IsCalm event s = (λ h. (tt, h), λ h. h.1)
  count_state-IsCalm automated s = (λ h. (tt, h), λ h. h.1)
  count_state-IsCalm due_soon s = (λ h. absurd (omega (arith, h)), λ h. absurd h.0)
  count_state-IsCalm overdue s = (λ h. absurd (omega (arith, h)), λ h. absurd h.0)
  count_state-IsCalm blocked s = (λ h. absurd (omega (arith, h)), λ h. absurd h.0)
  count_state-IsCalm never s = (λ h. absurd (omega (arith, h)), λ h. absurd h.0)
  count_state-IsCalm waived s = (λ h. (tt, h), λ h. h.1)
  count_state-IsCalm unknown s = (λ h. (tt, h), λ h. h.1)

  abbrev pub CalmTask : Task → Type 0
  CalmTask t = IsCalm (task_status u k t today).state

  count_tasks-All :
      (ts : List Task) (s : Counts)
      → (trouble (count_tasks u k today ts s) ≡ 0) ↔ (All CalmTask ts × (trouble s ≡ 0))
  unfolding count_tasks
  count_tasks-All [] s = (λ h. (tt, h), λ h. h.1)
  count_tasks-All (t ∷ ts) s =
      let x = (task_status u k t today).state in
      let (to, from) = count_tasks-All ts (count_state x s) in
      let (to', from') = count_state-IsCalm x s in
      (
        λ h. ((((to' (to h).1).0), (to h).0), (to' (to h).1).1),
        λ h. from (h.0.1, from' (h.0.0, h.1)),
      )

  class-trouble : (s : Counts) → (class_of s ≡ fine) ↔ (trouble s ≡ 0)
  unfolding class_of
  class-trouble s = ground arith

  -- The summary counts every task, apart from the waived and the unreadable ones, in one of its
  -- buckets, and its verdict is the good one just if no task is due soon, overdue, blocked or
  -- unrecorded.
  pub summarize_tasks_lem :
      (ts : List Task)
      → (in_buckets (summarize_tasks u k ts today).counts + uncounted u k today ts ≡ length ts)
        × (((summarize_tasks u k ts today).class ≡ fine) ↔ All CalmTask ts)
  unfolding summarize_tasks
  summarize_tasks_lem ts =
      let s = count_tasks u k today ts (no_counts (length ts)) in
      let (to, from) = count_tasks-All ts (no_counts (length ts)) in
      let (to', from') = class-trouble s in
      (
        omega (arith, tasks-buckets ts (no_counts (length ts))),
        (λ h. (to (to' h)).0, λ h. from' (from (h, omega arith))),
      )
