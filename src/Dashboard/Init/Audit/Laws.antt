-- ===== src/Dashboard/Init/Audit/Laws.antt =====
-- cmd/security-dashboard/init.go: when `init --check` fails.
use audit_logging.Common.{
  ◌+◌, ◌≡◌, ◌↔◌, refl, arith, [], List, ◌∷◌, ◌++◌, map, true, false, ◌||◌, All, Option, none, some,
}
use audit_logging.Text.{is_empty}
use audit_logging.Dashboard.Checks.{CheckDef}
use audit_logging.Dashboard.Config.{Config, Asvs, Standard, ComplianceDoc}
use audit_logging.Dashboard.Init.Proposal.{Proposal}
use audit_logging.Dashboard.Init.Audit.{
  Finding, Machine, missing_finding, misplaced, dir_findings, tool_finding, tool_findings,
  doc_findings, asvs_findings, audit_config, count_fails, report_check,
}

count_fails-append :
    (xs ys : List Finding) → count_fails (xs ++ ys) ≡ count_fails xs + count_fails ys
unfolding count_fails
count_fails-append [] ys = omega arith
count_fails-append (x ∷ xs) ys = ground (arith, count_fails-append xs ys)

-- A proposal whose absence is no drift, and a check that is off or whose directory is there.
abbrev pub IsOptional : Proposal → Type 0
IsOptional p = p.required ≡ false

abbrev pub IsPlaced : Machine → CheckDef → Type 0
IsPlaced m c = (c.disabled || is_empty c.dir || m.is_dir c.dir) ≡ true

module _ (m : Machine) where
  missing-IsOptional :
      (ps : List Proposal) → (count_fails (map (missing_finding m) ps) ≡ 0) ↔ All IsOptional ps
  unfolding count_fails missing_finding
  missing-IsOptional [] = (λ h. tt, λ h. refl)
  missing-IsOptional (p ∷ ps) = ground (arith, missing-IsOptional ps)

  misplaced-IsPlaced : (c : CheckDef) → (misplaced m c ≡ false) ↔ IsPlaced m c
  unfolding misplaced
  misplaced-IsPlaced c = ground arith

  dirs-IsPlaced : (cs : List CheckDef) → (count_fails (dir_findings m cs) ≡ 0) ↔ All (IsPlaced m) cs
  unfolding count_fails dir_findings
  dirs-IsPlaced [] = (λ h. tt, λ h. refl)
  dirs-IsPlaced (c ∷ cs) = ground (arith, dirs-IsPlaced cs, misplaced-IsPlaced c)

  count_fails-tool_findings : (cs : List CheckDef) → count_fails (tool_findings m cs) ≡ 0
  unfolding count_fails tool_findings tool_finding
  count_fails-tool_findings [] = refl
  count_fails-tool_findings (c ∷ cs) = ground (arith, count_fails-tool_findings cs)

  count_fails-doc_findings :
      (standards : List Standard) (ds : List ComplianceDoc)
      → count_fails (doc_findings m standards ds) ≡ 0
  unfolding count_fails doc_findings
  count_fails-doc_findings standards [] = refl
  count_fails-doc_findings standards (d ∷ ds) =
      ground (arith, count_fails-doc_findings standards ds)

count_fails-asvs_findings : (a : Option Asvs) → count_fails (asvs_findings a) ≡ 0
unfolding count_fails asvs_findings
count_fails-asvs_findings none = refl
count_fails-asvs_findings (some a) = ground arith

pub count_fails-audit_config :
    (m : Machine) (cfg : Config) (missing : List Proposal) (docs : List ComplianceDoc)
    → count_fails (audit_config m cfg missing docs)
      ≡ count_fails (map (missing_finding m) missing) + count_fails (dir_findings m cfg.checks)
unfolding audit_config
count_fails-audit_config m cfg missing docs =
    rw (count_fails-append, count_fails-append, count_fails-append, count_fails-append)
      (rw (count_fails-tool_findings m, count_fails-doc_findings m, count_fails-asvs_findings)
        (omega arith))

report_check-exit : (fs : List Finding) → ((report_check fs).exit ≡ 0) ↔ (count_fails fs ≡ 0)
unfolding report_check
report_check-exit fs = ground arith

-- The report of the audit has the exit code 0 exactly when every proposal that is missing is a mere
-- recommendation and every check that is not disabled runs in the root or in a directory that is there;
-- whatever else the audit finds are warnings.
pub report_check-Sound :
    (m : Machine) (cfg : Config) (missing : List Proposal) (docs : List ComplianceDoc)
    → ((report_check (audit_config m cfg missing docs)).exit ≡ 0)
      ↔ (All IsOptional missing × All (IsPlaced m) cfg.checks)
report_check-Sound m cfg missing docs = ground (
  arith,
  report_check-exit (audit_config m cfg missing docs),
  count_fails-audit_config m cfg missing docs,
  missing-IsOptional m missing,
  dirs-IsPlaced m cfg.checks,
)
