-- ===== src/Tests/Init.antt =====
-- A small repository on which `init` of cmd/security-dashboard runs.
use audit_logging.Dashboard.Render.{has_text}
use audit_logging.Common.{◌≡◌, ◌↔◌, refl, [], ◌∷◌, ◌++◌, map, true, false, Option, none, some}
use audit_logging.Text.{Text, codes, equal, has_prefix}
use audit_logging.Text.Fold.{ascii_only}
use audit_logging.Text.Order.{sort_slice, insert_sorted, cut_prefix}
use audit_logging.Text.Space.{trim_space}
use audit_logging.Text.Split.{split_n}
use audit_logging.Server.Model.{ok}
use audit_logging.Dashboard.Checks.{CheckDef}
use audit_logging.Dashboard.Config.{Config, no_config}
use audit_logging.Dashboard.Init.Stack.{
  file, dir, Entries, end, entry, Stack, Project, module_name, skip_dirs,
}
use audit_logging.Dashboard.Init.Detect.{
  detect_stack, walk_entries, visit_file, act, kind_of, node_project, go_module,
}
use audit_logging.Dashboard.Init.Detect.Laws.{Reports, visible_entries, detect_stack-Reports}
use audit_logging.Dashboard.Init.Proposals.{proposals_for}
use audit_logging.Dashboard.Init.Merge.{additions, merged_checks, merged_checks_twice}
use audit_logging.Dashboard.Init.Audit.{Machine}
use audit_logging.Dashboard.Init.Run.Check.{IsSound, run_init_check}
use audit_logging.Dashboard.Init.Raw.{Raw}
use audit_logging.Dashboard.Init.World.{InitOpts, Codec, World, Files, returned}
use audit_logging.Dashboard.Init.Load.Start.{Starts}
use audit_logging.Dashboard.Init.Run.{run_init}
use audit_logging.Dashboard.Init.Run.Laws.{run_init_untouched}

abbrev pub repository : Entries
repository = entry (file (codes "go.mod")) (
    entry (dir (codes "vendor") (entry (file (codes "Gemfile")) end))
      (entry (dir (codes "web") (entry (file (codes "package.json")) end)) end))

abbrev pub project : Project
project = record {
  tree = repository;
  read_file = λ path. some (codes "module example.org/audit\n");
  stat = λ path. equal path (codes "web/yarn.lock");
  text_of = λ bytes. bytes;
  unmarshal = λ s. none;
  base = some (codes "checkout");
  remote = none;
  compliance = [];
  read_doc = λ path. none;
  relative = λ path. none;
  base_of = λ path. path;
}

detect_stack-Reports_example : Reports (visible_entries repository) (detect_stack project)
detect_stack-Reports_example = detect_stack-Reports project

-- The directories of the Node projects, the Ruby project that is skipped, and the name.
found :
    (map (λ n. n.dir) (detect_stack project).node ≡ codes "web" ∷ [])
    × ((detect_stack project).ruby ≡ false)
    × ((detect_stack project).app_name ≡ codes "audit")
unfolding detect_stack sort_slice walk_entries skip_dirs equal has_prefix visit_file act kind_of
    node_project has_text go_module insert_sorted module_name split_n cut_prefix trim_space
found = (refl, refl, refl)

abbrev found_stack : Stack
found_stack = detect_stack project

-- `go test` is run by hand, gosec is turned off.
abbrev pub by_hand : CheckDef
by_hand = record {
  key = codes "unit";
  name = [];
  category = [];
  tool = [];
  gating = true;
  command = codes "go test -race ./...";
  parser = codes "exit";
  dir = [];
  install_hint = [];
  probe = [];
  suppress = [];
  source = [];
  disabled = false;
  reason = [];
}

merged_checks_twice_example :
    additions
      (proposals_for found_stack)
      (merged_checks (by_hand ∷ []) (additions (proposals_for found_stack) (by_hand ∷ [])))
    ≡ []
merged_checks_twice_example = merged_checks_twice found_stack (by_hand ∷ [])

abbrev pub machine : Machine
machine = record {
  is_dir = λ d. false;
  look_path = λ bin. true;
  quote = λ s. b'"' ∷ (s ++ codes "\"");
  unicode = ascii_only;
}

abbrev lost : CheckDef
lost = record by_hand { dir = codes "web" }

-- A config with the ASVS table, which `init` does not keep up.
abbrev pub members : Raw
members = (codes "asvs", codes "{}") ∷ (codes "checks", codes "[]") ∷ []

abbrev pub codec : Codec
codec = record {
  decode_raw = λ s. ok (some members);
  decode_config = λ s. ok (record no_config { checks = by_hand ∷ [] });
  app = λ a. codes "{}";
  checks = λ cs. some (codes "[1]");
  text = λ s. some s;
  docs = λ ds. some (codes "[]");
  standards = λ ss. some (codes "[]");
  tasks = λ ts. ok (codes "{}");
  printer = record { quote = λ s. s; indent = λ s. none };
}

abbrev pub world : World
world = record {
  project = project;
  machine = machine;
  codec = codec;
  config_path = codes "security/config.json";
  tasks_path = codes "security/tasks.json";
  abs_root = ok (codes "/src");
  read_error = none;
  stat_fails = false;
  mkdir_error = none;
  config_error = none;
  tasks_error = none;
}

abbrev plain : InitOpts
plain = record { dry_run = false; check = false; force = false }

abbrev files : Files
files = record { config = some (codes "{}"); tasks = none }

run_init_untouched_example : (run_init world (record plain { check = true }) files).files ≡ files
run_init_untouched_example = run_init_untouched world (record plain { check = true }) files refl

-- The run of `init --check`, on a config without a check of the stack.
abbrev only_check : InitOpts
only_check = record plain { check = true }

run_init_check_example : ((run_init world only_check files).ended ≡ returned none) ↔ (
    (raw : Option Raw) × (existing : Config) × Starts world only_check files raw existing
    × IsSound world existing)
run_init_check_example = run_init_check world only_check files refl
