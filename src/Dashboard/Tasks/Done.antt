-- ===== src/Dashboard/Tasks/Done.antt =====
-- cmd/security-dashboard/tasks.go: markTaskDone, over the text of tasks.json.
pub mod File
use audit_logging.Common.{
  ℕ, [], List, ◌∷◌, ◌++◌, map, take, Bool, true, false, ◌||◌, Option, none, some, if◌then◌else◌,
}
use audit_logging.Common.Int.{ℤ}
use audit_logging.Text.{Text, codes, is_empty, equal}
use audit_logging.Text.Fold.{Unicode}
use audit_logging.Server.Model.{Error, error_text, failure, Result, ok, err}
use audit_logging.Dashboard.Tasks.{Task, Calendar, parse_task_date, is_placeholder_status}

-- The path of tasks.json, the verb %q, the error of os.ReadFile, the JSON codec, and the error of
-- os.WriteFile, with the bytes that reach the file before it if the file could be opened.
pub record Disk : Type 0 where
  pub path : Text
  pub quote : Text → Text
  pub read_error : Option Error
  pub decode : Text → Result (List Task)
  pub encode : List Task → Result Text
  pub write_error : Option (Error × Option ℕ)

-- The error, and the text of tasks.json afterwards.
pub record Marked : Type 0 where
  pub error : Option Error
  pub content : Text

abbrev failed : Text → Text → Marked
failed message content = record { error = some (failure message); content = content }

module _ (u : Unicode) where
  -- a task that was done
  unfoldable pub mark : Text → Text → Text → Task → Task
  mark date owner note t = record t {
    last_run = date;
    status = if is_placeholder_status u t.status then [] else t.status;
    owner = if is_empty owner then t.owner else owner;
    last_note = note;
    next_due = [];
  }

  -- the loop over the tasks
  unfoldable pub mark_where : Text → Text → Text → Text → List Task → List Task
  mark_where id date owner note [] = []
  mark_where id date owner note (t ∷ ts) =
      let rest = mark_where id date owner note ts in
      if equal t.id id then mark date owner note t ∷ rest else t ∷ rest

-- `found`
unfoldable pub has_task : Text → List Task → Bool
has_task id [] = false
has_task id (t ∷ ts) = equal t.id id || has_task id ts

module _ (u : Unicode) (k : Calendar) (d : Disk) where
  -- os.WriteFile
  unfoldable pub written : Text → Option (Error × Option ℕ) → Text → Marked
  written content none text = record { error = none; content = text }
  written content (some (e, none)) text = record { error = some e; content = content }
  written content (some (e, some n)) text = record { error = some e; content = take n text }

  unfoldable pub encoded : Text → Result Text → Marked
  unfolding written
  encoded content (err e) = record { error = some e; content = content }
  encoded content (ok bytes) = written content d.write_error (bytes ++ (10 ∷ []))

  -- the loop's end: whether the task was found
  unfoldable pub settled : Text → Text → Bool → List Task → Marked
  unfolding encoded
  settled id content true tasks = encoded content (d.encode tasks)
  settled id content false tasks =
      failed (codes "no task with id " ++ (d.quote id ++ (codes " in " ++ d.path))) content

  unfoldable pub decoded : Text → Text → Text → Text → Text → Result (List Task) → Marked
  unfolding settled
  decoded id date owner note content (err e) =
      failed (codes "parse " ++ (d.path ++ (codes ": " ++ error_text e))) content
  decoded id date owner note content (ok tasks) =
      settled id content (has_task id tasks) (mark_where u id date owner note tasks)

  -- os.ReadFile, and what follows it
  unfoldable pub read_first : Text → Text → Text → Text → Text → Option Error → Marked
  unfolding decoded
  read_first id date owner note content (some e) =
      failed (codes "read " ++ (d.path ++ (codes ": " ++ error_text e))) content
  read_first id date owner note content none = decoded id date owner note content (d.decode content)

  unfoldable pub dated_done : Text → Text → Text → Text → Text → Option ℤ → Marked
  unfolding read_first
  dated_done id date owner note content none =
      failed (codes "date " ++ (d.quote date ++ codes " is not YYYY-MM-DD")) content
  dated_done id date owner note content (some day) =
      read_first id date owner note content d.read_error

  unfoldable pub mark_task_done : Text → Text → Text → Text → Text → Marked
  unfolding dated_done
  mark_task_done id date owner note content =
      dated_done id date owner note content (parse_task_date k date)
