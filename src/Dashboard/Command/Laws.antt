-- ===== src/Dashboard/Command/Laws.antt =====
-- cmd/security-dashboard/main.go: the exit code of `scan`.
use audit_logging.Common.{ℕ, ◌≡◌, ◌↔◌, refl, arith, List, Option, none, some, All}
use audit_logging.Text.{Text}
use audit_logging.Server.Model.{Error}
use audit_logging.Dashboard.Checks.Laws.{Passable, tally_lem}
use audit_logging.Dashboard.Checks.Scan.{perform_scan, scan_exit}
use audit_logging.Dashboard.Config.{Config}
use audit_logging.Dashboard.Runs.{Run, RunFile, scan_run, save_run}
use audit_logging.Dashboard.Command.{Env, State, render_page, rendered, saved, scan_command}

-- The run was saved without an error, and the page was rendered without one after that.
abbrev pub IsShown : Env → Config → State → Option Error × List RunFile → Type 0
IsShown e cfg s (x, runs) = (x ≡ none) × ((render_page e cfg (record s { runs = runs })).0 ≡ none)

rendered-exit :
    (code : ℕ) (r : Option Error × State)
    → ((rendered code r).exit ≡ 0) ↔ ((r.0 ≡ none) × (code ≡ 0))
unfolding rendered
rendered-exit code (some x, s) = (λ h. absurd (omega (arith, h)), λ h. absurd cc)
rendered-exit code (none, s) = (λ h. (refl, h), λ h. h.1)

module _ (e : Env) (cfg : Config) (run : Run) (s : State) where
  saved-exit :
      (r : Option Error × List RunFile)
      → ((saved e cfg run s r).exit ≡ 0) ↔ (IsShown e cfg s r × (scan_exit run.totals ≡ 0))
  unfolding saved
  saved-exit (some x, runs) = (λ h. absurd (omega (arith, h)), λ h. absurd cc)
  saved-exit (none, runs) =
      let (to, from) =
        rendered-exit (scan_exit run.totals) (render_page e cfg (record s { runs = runs })) in
      (λ h. let p = to h in ((refl, p.0), p.1), λ h. from (h.0.1, h.1))

-- `scan` exits with 0 exactly when its run was saved and the page rendered without an error and no gating
-- check of the run has failed or could not be read.
pub scan_command-Passed :
    (e : Env) (cfg : Config) (trigger : Text) (s : State)
    → let run = scan_run e.tools e.shell e.run_stamp cfg.checks trigger in
      ((scan_command e cfg trigger s).exit ≡ 0)
      ↔ (IsShown e cfg s (save_run e.run_codec run e.save_errors s.runs) × All Passable run.checks)
unfolding scan_command scan_run perform_scan
scan_command-Passed e cfg trigger s =
    let run = scan_run e.tools e.shell e.run_stamp cfg.checks trigger in
    let (to, from) = saved-exit e cfg run s (save_run e.run_codec run e.save_errors s.runs) in
    let (to', from') = (tally_lem run.checks).1 in
    (λ h. let p = to h in (p.0, to' p.1), λ h. from (h.0, from' h.1))
