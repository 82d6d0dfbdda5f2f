-- ===== src/Dashboard/Tasks/Laws.antt =====
-- cmd/security-dashboard/tasks.go: what recording a task does to its freshness, and to the file.
use audit_logging.Common.{
  [], ◌≡◌, refl, true, false, Bool-cases, none, some, inl, inr, arith, if◌then◌else◌,
}
use audit_logging.Common.Int.{ℤ, pos, negsuc, ltb_ℤ, leb_ℤ}
use audit_logging.Text.{Text, is_empty, equal}
use audit_logging.Text.Space.{trim_space}
use audit_logging.Text.Fold.{Unicode, to_lower}
use audit_logging.Dashboard.Tasks.{
  Task, Calendar, TaskState, current, due_soon, event, interval_of, task_status, overridden,
  scheduled, override_of, parse_task_date, dated, due_soon_days, is_placeholder_status,
}
use audit_logging.Dashboard.Tasks.Done.{mark}

blank-override : (u : Unicode) → override_of u [] ≡ none
unfolding override_of trim_space to_lower equal
blank-override u = refl

mark-override :
    (u : Unicode) (date owner note : Text) (t : Task)
    → override_of u t.status ≡ none
    → override_of u (mark u date owner note t).status ≡ none
unfolding mark
mark-override u date owner note t h = elim (Bool-cases (is_placeholder_status u t.status)) [
  | inl g ↦ simp g (blank-override u)
  | inr g ↦ simp g h
]

-- The state of a task on the day that it was done.
unfoldable pub fresh_state : ℤ → TaskState
fresh_state interval =
    if ltb_ℤ (pos 0) interval
    then (if leb_ℤ interval due_soon_days then due_soon else current)
    else event

event_state : (n : ℤ) → ltb_ℤ (pos 0) n ≡ false → event ≡ fresh_state n
unfolding fresh_state
event_state n h = rw h refl

module _ (u : Unicode) (k : Calendar) where
  dated-state :
      (t : Task) (due days : ℤ)
      → ltb_ℤ (pos 0) days ≡ true
      → (dated u k t due days).state ≡ fresh_state days
  unfolding dated fresh_state
  dated-state t due (pos n) h = ground (arith, h)
  dated-state t due (negsuc n) h = absurd cc

  scheduled-state :
      (t : Task) (last : ℤ)
      → is_empty (trim_space t.next_due) ≡ true
      → k.days_until (k.add_days last (interval_of u k t)) last ≡ interval_of u k t
      → (scheduled u k t last (some last)).state ≡ fresh_state (interval_of u k t)
  unfolding scheduled
  scheduled-state t last h g = elim (Bool-cases (ltb_ℤ (pos 0) (interval_of u k t))) [
    | inl b ↦
        rw (h, b, g) (dated-state t (k.add_days last (interval_of u k t)) (interval_of u k t) b)
    | inr b ↦ rw (h, b) (event_state (interval_of u k t) b)
  ]

  overridden-none :
      (t : Task) (today : ℤ)
      → is_empty (trim_space t.last_run) ≡ false
      → overridden u k t today none ≡ scheduled u k t today (parse_task_date k t.last_run)
  unfolding overridden
  overridden-none t today h = rw h refl

  task_status-scheduled :
      (t : Task) (today : ℤ)
      → override_of u t.status ≡ none
      → is_empty (trim_space t.last_run) ≡ false
      → task_status u k t today ≡ scheduled u k t today (parse_task_date k t.last_run)
  unfolding task_status
  task_status-scheduled t today h g = rw h (overridden-none t today g)

  no_next_due : is_empty (trim_space []) ≡ true
  unfolding trim_space
  no_next_due = refl

  -- A task that is recorded as done on a day, and whose status sets no state by hand, is on that day
  -- current if its interval is longer than 14 days, due soon if it is shorter, and tied to events if it
  -- has none, so never overdue, unrecorded or unreadable, where as many days are counted until the due
  -- date as the interval has added.
  pub task_status-mark :
      (date owner note : Text) (t : Task) (day : ℤ) (manual : override_of u t.status ≡ none)
      (filled : is_empty (trim_space date) ≡ false) (readable : parse_task_date k date ≡ some day)
      (counted : k.days_until (k.add_days day (interval_of u k t)) day ≡ interval_of u k t)
      → (task_status u k (mark u date owner note t) day).state ≡ fresh_state (interval_of u k t)
  unfolding mark
  task_status-mark date owner note t day manual filled readable counted =
      let t' = mark u date owner note t in
      rw (task_status-scheduled t' day (mark-override u date owner note t manual) filled, readable)
        (scheduled-state t' day no_next_due counted)
