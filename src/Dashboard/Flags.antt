-- ===== src/Dashboard/Flags.antt =====
-- cmd/security-dashboard/main.go: the arguments of the command and of its `task done`.
use audit_logging.Common.{[], List, ◌∷◌, ◌++◌, true, false, Option, none, some, if◌then◌else◌}
use audit_logging.Text.{Text, codes, is_empty, equal, has_prefix}
use audit_logging.Server.Model.{Error, failure, Result, ok, err}
use audit_logging.Dashboard.Init.World.{InitOpts}

-- The values of `cmd`.
pub data Cmd : Type 0 where
  scan_cmd render_cmd bundle_cmd init_cmd task_cmd : Cmd

unfoldable pub cmd_of : Text → Option Cmd
cmd_of a =
    if equal a (codes "scan")
    then some scan_cmd
    else if equal a (codes "render")
    then some render_cmd
    else if equal a (codes "bundle")
    then some bundle_cmd
    else if equal a (codes "init")
    then some init_cmd
    else if equal a (codes "task")
    then some task_cmd
    else none

first_cmd : Option Cmd → Text → List Text → Cmd × List Text
first_cmd none a rest = (render_cmd, a ∷ rest)
first_cmd (some c) a rest = (c, rest)

unfoldable pub split_args : List Text → Cmd × List Text
unfolding first_cmd
split_args [] = (render_cmd, [])
split_args (a ∷ rest) = first_cmd (cmd_of a) a rest

pub record Flags : Type 0 where
  pub dir : Text
  pub trigger : Text
  pub opts : InitOpts

-- the flags that take no value
bare_flag : Text → Flags → Flags
bare_flag a f =
    if equal a (codes "--dry-run")
    then record f { opts = record f.opts { dry_run = true } }
    else if equal a (codes "--check")
    then record f { opts = record f.opts { check = true } }
    else if equal a (codes "--force")
    then record f { opts = record f.opts { force = true } }
    else f

-- the loop over the arguments; a flag whose value is missing sets nothing
unfoldable pub read_flags : List Text → Flags → Flags
unfolding bare_flag
read_flags [] f = f
read_flags (a ∷ []) f = bare_flag a f
read_flags (a ∷ b ∷ rest) f =
    let dir_first = read_flags rest (record f { dir = b }) in
    let trigger_first = read_flags rest (record f { trigger = b }) in
    let next = read_flags (b ∷ rest) (bare_flag a f) in
    if equal a (codes "--dir")
    then dir_first
    else if equal a (codes "--trigger")
    then trigger_first
    else next

abbrev pub no_flags : Flags
no_flags = record {
  dir = codes "security";
  trigger = codes "manual";
  opts = record { dry_run = false; check = false; force = false };
}

-- What runTask is asked for.
pub record DoneArgs : Type 0 where
  pub id : Text
  pub date : Text
  pub owner : Text
  pub note : Text

pub data TaskRequest : Type 0 where
  list_tasks : TaskRequest
  task_done : DoneArgs → TaskRequest

-- a first argument that is no flag, and the arguments behind it
unfoldable pub take_word : List Text → Option Text × List Text
take_word [] = (none, [])
take_word (a ∷ rest) = if has_prefix a (codes "-") then (none, a ∷ rest) else (some a, rest)

module _ (quote : Text → Text) where
  -- one flag with its value
  unfoldable pub done_flag : Text → Text → DoneArgs → Result DoneArgs
  done_flag flag value d =
      if equal flag (codes "--date")
      then ok (record d { date = value })
      else if equal flag (codes "--owner")
      then ok (record d { owner = value })
      else if equal flag (codes "--note")
      then ok (record d { note = value })
      else if equal flag (codes "--dir")
      then ok d
      else err (failure (codes "unknown flag " ++ quote flag))

  -- the loop over the flags
  unfoldable pub read_done : List Text → Result DoneArgs → Result DoneArgs
  read_done rest (err e) = err e
  read_done [] (ok d) = ok d
  read_done (flag ∷ []) (ok d) = err (failure (flag ++ codes " needs a value"))
  read_done (flag ∷ value ∷ rest) (ok d) = read_done rest (done_flag flag value d)

  usage : Error
  usage =
      failure (codes "usage: task done <id> [--date YYYY-MM-DD] [--owner <name>] [--note <text>]")

  done_with : Text → Option Text × List Text → Result DoneArgs
  done_with today (none, rest) = err usage
  done_with today (some id, rest) =
      let read = read_done rest (ok (record { id = id; date = today; owner = []; note = [] })) in
      if is_empty id then err usage else read

  asked : Result DoneArgs → Result TaskRequest
  asked (err e) = err e
  asked (ok d) = ok (task_done d)

  task_sub : Text → Option Text × List Text → Result TaskRequest
  unfolding done_with asked
  task_sub today (none, rest) = ok list_tasks
  task_sub today (some sub, rest) =
      if equal sub (codes "list")
      then ok list_tasks
      else if equal sub (codes "done")
      then asked (done_with today (take_word rest))
      else err
          (failure (codes "unknown task command " ++ (quote sub ++ codes " (want: list, done)")))

  -- runTask's reading of its arguments
  unfoldable pub task_request : Text → List Text → Result TaskRequest
  unfolding task_sub usage
  task_request today args = task_sub today (take_word args)
