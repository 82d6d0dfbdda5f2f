-- ===== src/Dashboard/Tasks/Done/File.antt =====
-- cmd/security-dashboard/tasks.go: what markTaskDone leaves in tasks.json.
use audit_logging.Common.{[], List, ◌∷◌, ◌++◌, ◌≡◌, ◌≢◌, true, false, some, ◌⊎◌}
use audit_logging.Common.Int.{ℤ}
use audit_logging.Text.{Text, is_empty}
use audit_logging.Text.Fold.{Unicode}
use audit_logging.Server.Model.{ok}
use audit_logging.Dashboard.Tasks.{Task, is_placeholder_status, Calendar, parse_task_date}
use audit_logging.Dashboard.Tasks.Done.{Disk, Marked, has_task}

-- The tasks of two lists, one by one.
abbrev pub Pairwise : (Task → Task → Type 0) → List Task → List Task → Type 0
Pairwise P [] [] = Unit
Pairwise P (t ∷ ts) (t' ∷ ts') = P t t' × Pairwise P ts ts'
Pairwise P _ _ = ⊥

-- What becomes of a task that was done: it has the date and the note, no date of its own to be due, the
-- owner that was given, if one was, and no status where its own was a mere placeholder; the rest stays.
pub record IsMarked (u : Unicode) (date owner note : Text) (t t' : Task) : Type 0 where
  pub last_run : t'.last_run ≡ date
  pub last_note : t'.last_note ≡ note
  pub next_due : t'.next_due ≡ []
  pub kept_owner : owner ≡ [] → t'.owner ≡ t.owner
  pub new_owner : is_empty owner ≡ false → t'.owner ≡ owner
  pub cleared : is_placeholder_status u t.status ≡ true → t'.status ≡ []
  pub kept_status : is_placeholder_status u t.status ≡ false → t'.status ≡ t.status
  pub rest :
      (t'.id ≡ t.id)
      × (t'.title ≡ t.title)
      × (t'.category ≡ t.category)
      × (t'.cadence ≡ t.cadence)
      × (t'.doc_anchor ≡ t.doc_anchor)
      × (t'.notes ≡ t.notes)
      × (t'.interval_days ≡ t.interval_days)
      × (t'.source ≡ t.source)

-- A task and what a command for the id leaves of it.
abbrev pub Recorded : Unicode → Text → Text → Text → Text → Task → Task → Type 0
Recorded u id date owner note t t' =
    ((t.id ≢ id) × (t' ≡ t)) ⊎ ((t.id ≡ id) × IsMarked u date owner note t t')

module _ (u : Unicode) (k : Calendar) (d : Disk) (id date owner note content : Text) where
  -- Decoding an encoded text with a line end gives the tasks back.
  abbrev pub Round : Type 0
  Round =
      (x : List Task) (bytes : Text) → d.encode x ≡ ok bytes → d.decode (bytes ++ (10 ∷ [])) ≡ ok x

  -- What a successful command has found and written.
  unfoldable pub Done : Marked → Type 0
  Done m =
      (day : ℤ) × (ts : List Task) × (ts' : List Task) × (parse_task_date k date ≡ some day)
      × (d.decode content ≡ ok ts)
      × (d.decode m.content ≡ ok ts')
      × (has_task id ts ≡ true)
      × Pairwise (Recorded u id date owner note) ts ts'
