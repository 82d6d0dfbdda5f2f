-- ===== src/Dashboard/Checks/Parse.antt =====
-- cmd/security-dashboard/checks.go: parseResult, which turns the output of a tool into a status.
use audit_logging.Common.{ℕ, ◌++◌, Bool, false, Option, none, some, ltb, ◌==◌, if◌then◌else◌}
use audit_logging.Common.Int.{ℤ, pos, negsuc, ltb_ℤ, add_int64}
use audit_logging.Text.{Text, codes, is_empty, equal, contains}
use audit_logging.Text.Space.{trim_space}
use audit_logging.Text.Decimal.{format_int, format_uint}
use audit_logging.Dashboard.Words.{plural, atoi}
use audit_logging.Dashboard.Checks.{CheckResult, Status, pass, fail, warn, errored}
use audit_logging.Dashboard.Checks.Counts.{
  Tools, count_json_array, sarif_counts, eslint_counts, vitest_counts, npm_audit_counts,
}

-- the stream that a JSON parser reads
unfoldable pub structured : Text → Text → Text
structured stdout combined = if is_empty (trim_space stdout) then combined else stdout

-- a result with a status, a summary and a number of findings
abbrev pub graded : CheckResult → Status → Text → ℤ → CheckResult
graded r status summary findings = record r {
  status = status;
  summary = summary;
  findings = findings;
}

-- unparseable; the findings are as they were
unfoldable pub unparseable : CheckResult → Text → ℤ → CheckResult
unparseable r what exit =
    graded r errored
      (codes "could not parse "
        ++ (what ++ (codes " output (exit " ++ (format_int exit ++ codes ")"))))
      r.findings

abbrev positive : ℤ → Bool
positive n = ltb_ℤ (pos 0) n

abbrev is_zero : ℤ → Bool
is_zero (pos n) = n == 0
is_zero (negsuc n) = false

-- gradeFindings
unfoldable pub grade_findings : CheckResult → ℤ → Text → Text → CheckResult
grade_findings r n one many = graded r (if positive n then warn else pass) (plural n one many) n

module _ (w : Tools) where
  -- govulncheck: the number of vulnerabilities
  vulnerabilities_of : Text → Option Text → ℤ
  vulnerabilities_of output (some digits) = atoi digits
  vulnerabilities_of output none =
      if contains output (codes "No vulnerabilities found")
      then pos 0
      else pos (w.vulnerabilities output)

  unfoldable pub parse_govulncheck : CheckResult → Text → CheckResult
  unfolding vulnerabilities_of
  parse_govulncheck r output =
      let n = vulnerabilities_of output (w.affected output) in
      if positive n
      then graded r fail
          (plural n (codes "vulnerability your code calls")
            (codes "vulnerabilities your code calls"))
          n
      else graded r pass (codes "no known vulnerable dependencies called") n

  -- gosec and semgrep: the elements of one array
  unfoldable pub grade_array : CheckResult → Text → Text → Text → ℤ → Option ℕ → CheckResult
  grade_array r what one many exit none = unparseable r what exit
  grade_array r what one many exit (some n) = grade_findings r (pos n) one many

  leaks_of : CheckResult → ℤ → Option Text → ℤ
  leaks_of r exit (some digits) = atoi digits
  leaks_of r exit none = if is_zero exit then r.findings else pos 1

  unfoldable pub parse_gitleaks : CheckResult → Text → ℤ → CheckResult
  unfolding leaks_of
  parse_gitleaks r output exit =
      let n = leaks_of r exit (w.leaks output) in
      if positive n
      then graded r fail (plural n (codes "secret leaked") (codes "secrets leaked")) n
      else graded r pass (codes "no secrets detected") n

  unfoldable pub grade_npm : CheckResult → ℤ → Option (ℤ × ℤ) → CheckResult
  grade_npm r exit none = unparseable r (codes "npm audit JSON") exit
  grade_npm r exit (some (crit, high)) =
      graded r (if positive crit then fail else if positive high then warn else pass)
        (format_int crit ++ (codes " critical, " ++ (format_int high ++ codes " high")))
        (add_int64 crit high)

  unfoldable pub grade_sarif : CheckResult → ℤ → Option (ℕ × ℕ) → CheckResult
  grade_sarif r exit none =
      graded r errored
        (if is_zero exit
          then codes "no SARIF output"
          else codes "no SARIF output (exit " ++ (format_int exit ++ codes ")"))
        r.findings
  grade_sarif r exit (some (total, high)) =
      let found = plural (pos total) (codes "finding") (codes "findings") in
      if ltb 0 high
      then graded r fail (found ++ (codes ", " ++ (format_uint high ++ codes " high or critical")))
          (pos total)
      else if ltb 0 total
      then graded r warn found (pos total)
      else graded r pass (codes "no findings") (pos total)

  unfoldable pub grade_eslint : CheckResult → ℤ → Option (ℤ × ℤ) → CheckResult
  grade_eslint r exit none = unparseable r (codes "ESLint JSON") exit
  grade_eslint r exit (some (errs, warns)) =
      graded r (if positive errs then fail else if positive warns then warn else pass)
        (format_int errs ++ (codes " error(s), " ++ (format_int warns ++ codes " warning(s)")))
        (add_int64 errs warns)

  unfoldable pub grade_vitest : CheckResult → ℤ → Option (ℤ × ℤ) → CheckResult
  grade_vitest r exit none = unparseable r (codes "Vitest JSON") exit
  grade_vitest r exit (some (total, failed)) =
      if positive failed
      then graded r fail
          (format_int failed ++ (codes " of " ++ (format_int total ++ codes " tests failing")))
          failed
      else graded r pass (plural total (codes "test passed") (codes "tests passed")) failed

  unfoldable pub parse_gotest : CheckResult → Text → ℤ → CheckResult
  parse_gotest r output exit =
      let n = pos (w.test_fails output) in
      if is_zero exit
      then graded r pass (if w.test_ok output then codes "package tests passed" else codes "passed")
          r.findings
      else graded r fail (plural n (codes "test failed") (codes "tests failed")) n

  unfoldable pub parse_exit : CheckResult → ℤ → CheckResult
  parse_exit r exit =
      if is_zero exit
      then graded r pass (codes "passed") r.findings
      else graded r fail (codes "non-zero exit") r.findings

  -- parseResult
  unfoldable pub parse_result : CheckResult → Text → Text → ℤ → CheckResult
  parse_result r stdout combined exit =
      let document = structured stdout combined in
      let parser = r.def.parser in
      if equal parser (codes "govulncheck")
      then parse_govulncheck r combined
      else if equal parser (codes "gosec-json")
      then grade_array r (codes "gosec JSON") (codes "issue") (codes "issues") exit
          (count_json_array w document (codes "Issues"))
      else if equal parser (codes "semgrep-json")
      then grade_array r (codes "Semgrep JSON") (codes "finding") (codes "findings") exit
          (count_json_array w document (codes "results"))
      else if equal parser (codes "gitleaks")
      then parse_gitleaks r combined exit
      else if equal parser (codes "npm-audit")
      then grade_npm r exit (npm_audit_counts w document)
      else if equal parser (codes "sarif")
      then grade_sarif r exit (sarif_counts w document r.def.suppress)
      else if equal parser (codes "eslint-json")
      then grade_eslint r exit (eslint_counts w document)
      else if equal parser (codes "vitest-json")
      then grade_vitest r exit (vitest_counts w document)
      else if equal parser (codes "gotest")
      then parse_gotest r combined exit
      else parse_exit r exit
