-- ===== src/Dashboard/Checks/Scan.antt =====
-- cmd/security-dashboard/checks.go and main.go: a check that is run, the run of all checks, and the exit
-- code of the command.
use audit_logging.Common.{
  ℕ, [], List, ◌∷◌, ◌++◌, Bool, true, false, not, ◌&&◌, ◌||◌, Option, none, some, ltb, ◌==◌,
  if◌then◌else◌,
}
use audit_logging.Common.Int.{ℤ, pos}
use audit_logging.Text.{Text, codes, is_empty, equal, contains}
use audit_logging.Dashboard.Words.{first_word}
use audit_logging.Dashboard.Checks.{CheckDef, CheckResult, fail, skipped, Totals, tally}
use audit_logging.Dashboard.Checks.Counts.{Tools}
use audit_logging.Dashboard.Checks.Parse.{parse_result}

-- An error of cmd.Run: its message, and the exit code if it is an ExitError.
pub record RunError : Type 0 where
  pub message : Text
  pub code : Option ℤ

-- What a command wrote, how it ended and how long it took.
pub record Ran : Type 0 where
  pub stdout : Text
  pub stderr : Text
  pub error : Option RunError
  pub duration_ms : ℤ

-- The world of a scan: whether LookPath finds a binary and Stat a directory, the commands by directory
-- and text, and the path of the report of a check.
pub record Shell : Type 0 where
  pub look_path : Text → Bool
  pub stat : Text → Bool
  pub execute : Text → Text → Ran
  pub report_path : Text → Text

unfoldable pub exit_code : Option RunError → ℤ
exit_code none = pos 0
exit_code (some e) =
    if contains e.message (codes "executable file not found")
    then pos 127
    else elim e.code [ some code ↦ code | none ↦ pos 1 ]

-- strings.ContainsAny(s, ";|&$`")
unfoldable pub has_shell_syntax : Text → Bool
has_shell_syntax [] = false
has_shell_syntax (c ∷ s) =
    c == b';' || c == b'|' || c == b'&' || c == b'$' || c == b'`' || has_shell_syntax s

-- a result that says nothing yet
abbrev pub unset : CheckDef → CheckResult
unset def = record {
  def = def;
  status = skipped;
  summary = [];
  findings = pos 0;
  report_file = [];
  duration_ms = pos 0;
}

abbrev pub skip : CheckDef → Text → CheckResult
skip def summary = record (unset def) { summary = summary }

-- the binary that must be there
unfoldable pub missing_tool : Shell → CheckDef → Bool
missing_tool sh def =
    let bin = first_word def.command in
    if not (is_empty def.probe)
    then not (sh.look_path def.probe)
    else not (equal bin (codes "go"))
      && not (equal bin (codes "npm"))
      && not (has_shell_syntax def.command)
      && not (sh.look_path bin)

-- the text of the report
unfoldable pub report_of : Ran → Text
report_of r =
    if is_empty r.stderr
    then r.stdout
    else codes "=== stderr ===\n" ++ (r.stderr ++ (codes "\n=== stdout ===\n" ++ r.stdout))

-- the result of a command that was run
unfoldable pub judged : Tools → Shell → CheckDef → Ran → CheckResult
judged w sh def r =
    parse_result w
      (record (unset def) { duration_ms = r.duration_ms; report_file = sh.report_path def.key })
      r.stdout (r.stderr ++ r.stdout) (exit_code r.error)

-- runCheck, with the report that it writes
unfoldable pub run_check : Tools → Shell → CheckDef → CheckResult × Option Text
run_check w sh def =
    let r = sh.execute def.dir def.command in
    if missing_tool sh def
    then (skip def (codes "not installed"), none)
    else if not (is_empty def.dir) && not (sh.stat def.dir)
    then (skip def (def.dir ++ codes " not present"), none)
    else (judged w sh def r, some (report_of r))

-- the results of the checks that are not disabled
unfoldable pub run_checks : Tools → Shell → List CheckDef → List CheckResult
run_checks w sh [] = []
run_checks w sh (def ∷ defs) =
    let rest = run_checks w sh defs in if def.disabled then rest else (run_check w sh def).0 ∷ rest

-- performScan's totals, and the exit code of `scan` that follows from them
unfoldable pub perform_scan : Tools → Shell → List CheckDef → List CheckResult × Totals
perform_scan w sh defs = let checks = run_checks w sh defs in (checks, tally checks)

unfoldable pub scan_exit : Totals → ℕ
scan_exit t = if ltb 0 t.gating_fail then 1 else 0

-- the checks that main names as gating failures
unfoldable pub named_failures : List CheckResult → List Text
named_failures [] = []
named_failures (c ∷ cs) =
    let rest = named_failures cs in
    let is_fail = elim c.status as (λ _. Bool) [ fail ↦ true | _ ↦ false ] in
    if c.def.gating && is_fail then c.def.key ∷ rest else rest
