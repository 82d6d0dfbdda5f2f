-- ===== src/Tests/Runs.antt =====
-- A scan of one check, its run, and the runs that are loaded after it.
use audit_logging.Common.{◌≡◌, ◌↔◌, refl, [], List, ◌∷◌, ◌++◌, true, none, some, All, if◌then◌else◌}
use audit_logging.Common.Int.{pos}
use audit_logging.Text.{Text, codes, equal}
use audit_logging.Text.Fold.{ascii_only}
use audit_logging.Text.Order.{less}
use audit_logging.Server.Model.{failure, ok}
use audit_logging.Dashboard.Checks.{no_totals}
use audit_logging.Dashboard.Checks.Laws.{Passable}
use audit_logging.Dashboard.Config.{Config, no_config}
use audit_logging.Dashboard.Runs.{
  Run, RunFile, RunCodec, SaveErrors, Stamp, scan_run, newer, read_runs, taken, load_runs, put_file,
  write_run, encoded_run, made_dir, save_run,
}
use audit_logging.Dashboard.Runs.Laws.{load_runs-save_run}
use audit_logging.Dashboard.Page.{PageEnv}
use audit_logging.Dashboard.Command.{Env, State, scan_command}
use audit_logging.Dashboard.Command.Laws.{IsShown, scan_command-Passed}
use audit_logging.Tests.Dashboard.{blind, shell, audit, calendar}
use audit_logging.Tests.Tasks.{disk}
use audit_logging.Tests.Init.{world}

abbrev run_at : Text → Run
run_at id = record {
  id = id;
  started_at = [];
  git_sha = [];
  git_branch = [];
  trigger = codes "manual";
  checks = [];
  totals = no_totals;
}

-- An encoder that writes the id alone, of which the decoder knows two.
abbrev run_codec : RunCodec
run_codec = record {
  encode = λ r. ok r.id;
  decode = λ s.
      if equal s (codes "2\n")
      then some (run_at (codes "2"))
      else if equal s (codes "1\n")
      then some (run_at (codes "1"))
      else none;
}

abbrev smooth : SaveErrors
smooth = record { mkdir = none; write = none }

abbrev one_run : List RunFile
one_run = record { name = codes "1"; text = some (codes "1\n") } ∷ []

abbrev two_runs : List RunFile
two_runs = one_run ++ (record { name = codes "2"; text = some (codes "2\n") } ∷ [])

decodes : run_codec.decode (codes "2" ++ (10 ∷ [])) ≡ some (run_at (codes "2"))
unfolding equal
decodes = refl

is_newer : All (λ r. newer (run_at (codes "2")) r ≡ true) (read_runs run_codec one_run)
unfolding read_runs taken newer less equal
is_newer = (refl, tt)

saves : save_run run_codec (run_at (codes "2")) smooth one_run ≡ (none, two_runs)
unfolding save_run made_dir encoded_run write_run put_file equal
saves = refl

load_runs-save_run_example :
    (rest : List Run) × (load_runs run_codec two_runs ≡ run_at (codes "2") ∷ rest)
load_runs-save_run_example =
    load_runs-save_run run_codec (run_at (codes "2")) smooth one_run two_runs refl decodes refl
      is_newer saves

abbrev page_env : PageEnv
page_env = record {
  unicode = ascii_only;
  calendar = calendar;
  today = pos 100;
  generated_at = [];
  parse_error = none;
  execute = λ v. (v.posture_label, none);
  create_error = none;
  close_error = none;
  badge_error = none;
}

abbrev clock_now : Stamp
clock_now = record { run_id = codes "2"; started_at = []; sha = none; branch = none }

abbrev env : Env
env = record {
  dir = codes "security";
  tools = blind;
  shell = shell;
  run_stamp = clock_now;
  run_codec = run_codec;
  save_errors = smooth;
  page = page_env;
  init = world;
  disk = disk;
  today = codes "100";
  decode_config = λ s. ok no_config;
  decode_tasks = λ s. [];
  encode_bundle = λ b. ok [];
  not_there = failure (codes "no such file");
  config_error = none;
}

abbrev directory : State
directory = record {
  config = some (codes "{}");
  tasks = none;
  runs = one_run;
  pages = record { badge = none; dashboard = none };
}

abbrev audited_config : Config
audited_config = record no_config { checks = audit ∷ [] }

abbrev scanned : Run
scanned = scan_run blind shell clock_now (audit ∷ []) (codes "ci")

scan_command-Passed_example :
    ((scan_command env audited_config (codes "ci") directory).exit ≡ 0) ↔ (
      IsShown env audited_config directory (save_run run_codec scanned smooth one_run)
      × All Passable scanned.checks)
scan_command-Passed_example = scan_command-Passed env audited_config (codes "ci") directory
