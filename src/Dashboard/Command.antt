-- ===== src/Dashboard/Command.antt =====
-- cmd/security-dashboard/main.go: the command, over the files of the directory that it is given.
pub mod Laws
use audit_logging.Common.{
  ℕ, [], List, ◌∷◌, ◌++◌, Bool, true, false, Option, none, some, ltb, if◌then◌else◌,
}
use audit_logging.Text.{Text, codes}
use audit_logging.Server.Model.{Error, failure, Result, ok, err}
use audit_logging.Forwarder.Checkpoint.{about}
use audit_logging.Dashboard.Tasks.{Task}
use audit_logging.Dashboard.Tasks.Done.{Disk, Marked, mark_task_done}
use audit_logging.Dashboard.Checks.{Totals}
use audit_logging.Dashboard.Checks.Counts.{Tools}
use audit_logging.Dashboard.Checks.Scan.{Shell, scan_exit}
use audit_logging.Dashboard.Config.{Config, Asvs, Conformance, Standard}
use audit_logging.Dashboard.Runs.{
  Run, RunFile, RunCodec, SaveErrors, Stamp, scan_run, load_runs, save_run,
}
use audit_logging.Dashboard.Page.{PageEnv, Pages, render}
use audit_logging.Dashboard.Flags.{
  Cmd, scan_cmd, render_cmd, bundle_cmd, init_cmd, task_cmd, split_args, Flags, read_flags,
  no_flags, DoneArgs, TaskRequest, list_tasks, task_done, task_request,
}
use audit_logging.Dashboard.Init.World.{World, Files, Ended, returned, exited, panicked, Outcome}
use audit_logging.Dashboard.Init.Run.{run_init}

-- What `bundle` puts together; the members that come from `asvs` are there if it is.
pub record Bundle : Type 0 where
  pub name : Text
  pub description : Text
  pub security : Run
  pub standards : List Standard
  pub conformance : List Conformance
  pub asvs : Option Asvs

-- The directory of the dashboard.
pub record State : Type 0 where
  pub config : Option Text
  pub tasks : Option Text
  pub runs : List RunFile
  pub pages : Pages

-- What the command is given by its surroundings: the name of the directory, those of its parts, the date of today as a text, the
-- decoders of config.json and of tasks.json (whose errors are passed over), the encoder of a bundle, the
-- error of reading a file that is not there, and that of reading config.json.
pub record Env : Type 0 where
  pub dir : Text
  pub tools : Tools
  pub shell : Shell
  pub run_stamp : Stamp
  pub run_codec : RunCodec
  pub save_errors : SaveErrors
  pub page : PageEnv
  pub init : World
  pub disk : Disk
  pub today : Text
  pub decode_config : Text → Result Config
  pub decode_tasks : Text → List Task
  pub encode_bundle : Bundle → Result Text
  pub not_there : Error
  pub config_error : Option Error

-- The exit code, what is written to standard output as the result, and the directory afterwards.
pub record Ran : Type 0 where
  pub exit : ℕ
  pub output : Text
  pub state : State

abbrev pub ran : ℕ → State → Ran
ran n s = record { exit = n; output = []; state = s }

parsed_config : Result Config → Result Config
parsed_config (err e) = err (about (codes "parse config") e)
parsed_config (ok cfg) = ok cfg

read_config : Env → Option Text → Option Error → Result Config
unfolding parsed_config
read_config e none x = err (about (codes "read config") e.not_there)
read_config e (some text) (some x) = err (about (codes "read config") x)
read_config e (some text) none = parsed_config (e.decode_config text)

unfoldable pub load_config : Env → State → Result Config
unfolding read_config
load_config e s = read_config e s.config e.config_error

tasks_in : Env → Option Text → List Task
tasks_in e none = []
tasks_in e (some text) = e.decode_tasks text

unfoldable pub load_tasks : Env → State → List Task
unfolding tasks_in
load_tasks e s = tasks_in e s.tasks

unfoldable pub render_page : Env → Config → State → Option Error × State
render_page e cfg s =
    let (x, pages) = render e.page cfg (load_runs e.run_codec s.runs) (load_tasks e s) s.pages in
    (x, record s { pages = pages })

bundle_of : Env → Config → List Run → Result Text
bundle_of e cfg [] =
    err (failure (codes "no runs found in " ++ (e.dir ++ codes "/runs — run `scan` first")))
bundle_of e cfg (r ∷ rs) = e.encode_bundle (record {
  name = cfg.app.name;
  description = cfg.app.description;
  security = r;
  standards = cfg.standards;
  conformance = cfg.conformance;
  asvs = cfg.asvs;
})

unfoldable pub build_bundle : Env → Config → State → Result Text
unfolding bundle_of
build_bundle e cfg s = bundle_of e cfg (load_runs e.run_codec s.runs)

bundled : State → Result Text → Ran
bundled s (err x) = ran 1 s
bundled s (ok text) = record { exit = 0; output = text ++ (10 ∷ []); state = s }

-- the exit after the page was rendered
unfoldable pub rendered : ℕ → Option Error × State → Ran
rendered code (some x, s) = ran 1 s
rendered code (none, s) = ran code s

unfoldable pub saved : Env → Config → Run → State → Option Error × List RunFile → Ran
saved e cfg run s (some x, runs) = ran 1 (record s { runs = runs })
saved e cfg run s (none, runs) =
    rendered (scan_exit run.totals) (render_page e cfg (record s { runs = runs }))

-- `scan`
unfoldable pub scan_command : Env → Config → Text → State → Ran
scan_command e cfg trigger s =
    let run = scan_run e.tools e.shell e.run_stamp cfg.checks trigger in
    saved e cfg run s (save_run e.run_codec run e.save_errors s.runs)

-- `render`
unfoldable pub render_command : Env → Config → State → Ran
render_command e cfg s = rendered 0 (render_page e cfg s)

after_config : Result Config → State → (Config → Ran) → Ran
after_config (err x) s next = ran 1 s
after_config (ok cfg) s next = next cfg

-- what follows markTaskDone: tasks.json holds its text, if it was there or could be opened
marked : Env → State → Option Error → Ran
unfolding after_config
marked e s (some x) = ran 1 s
marked e s none = after_config (load_config e s) s (λ cfg. render_command e cfg s)

-- tasks.json that is not there cannot be read
on_tasks : Env → DoneArgs → State → Option Text → Ran
unfolding marked
on_tasks e d s none =
    let disk : Disk = record e.disk { read_error = some e.not_there } in
    let m = mark_task_done e.page.unicode e.page.calendar disk d.id d.date d.owner d.note [] in
    marked e s m.error
on_tasks e d s (some text) =
    let m = mark_task_done e.page.unicode e.page.calendar e.disk d.id d.date d.owner d.note text in
    marked e (record s { tasks = some m.content }) m.error

-- `task`; the schedule that `task list` prints is left out
unfoldable pub task_command : Env → State → Result TaskRequest → Ran
unfolding on_tasks
task_command e s (err x) = ran 1 s
task_command e s (ok list_tasks) = ran 0 s
task_command e s (ok (task_done d)) = on_tasks e d s s.tasks

-- the exit code after runInit; a panic exits with 2
abbrev init_code : Ended → ℕ
init_code (returned none) = 0
init_code (returned (some x)) = 1
init_code (exited n) = n
init_code panicked = 2

unfoldable pub init_command : Env → Flags → State → Ran
init_command e f s =
    let out = run_init e.init f.opts (record { config = s.config; tasks = s.tasks }) in
    ran (init_code out.ended) (record s { config = out.files.config; tasks = out.files.tasks })

-- main behind its flags
unfoldable pub run_cmd : Env → Flags → List Text → State → Cmd → Ran
unfolding after_config bundled
run_cmd e f args s init_cmd = init_command e f s
run_cmd e f args s task_cmd = task_command e s (task_request e.disk.quote e.today args)
run_cmd e f args s bundle_cmd =
    after_config (load_config e s) s (λ cfg. bundled s (build_bundle e cfg s))
run_cmd e f args s scan_cmd =
    after_config (load_config e s) s (λ cfg. scan_command e cfg f.trigger s)
run_cmd e f args s render_cmd = after_config (load_config e s) s (λ cfg. render_command e cfg s)

-- main, for the directory that its flags name
unfoldable pub main : (Text → Env) → List Text → State → Ran
main env args s =
    let (cmd, rest) = split_args args in
    let f = read_flags rest no_flags in run_cmd (env f.dir) f rest s cmd
