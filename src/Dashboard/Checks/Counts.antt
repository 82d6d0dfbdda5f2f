-- ===== src/Dashboard/Checks/Counts.antt =====
-- cmd/security-dashboard/checks.go: the counts that are read from the reports of the tools. The regular
-- expressions and encoding/json are parameters.
use audit_logging.Common.{
  ℕ, zero, suc, ◌+◌, [], List, ◌∷◌, length, Bool, true, false, ◌&&◌, ◌||◌, Option, none, some,
  if◌then◌else◌,
}
use audit_logging.Common.Int.{ℤ, pos, add_int64}
use audit_logging.Text.{Text, codes, equal}
use audit_logging.Dashboard.Checks.{Suppression}

-- The parts of a SARIF document that are read. The paths are those of a result's locations.
pub record Rule : Type 0 where
  pub id : Text
  pub security_severity : Text

pub record SarifResult : Type 0 where
  pub rule_id : Text
  pub level : Text
  pub locations : List Text
  pub suppressions : ℕ

pub record SarifRun : Type 0 where
  pub driver_rules : List Rule
  pub extensions : List (List Rule)
  pub results : List SarifResult

-- What the regular expressions find in an output and json.Unmarshal decodes from it: the group of
-- reAffected and of reLeaks, the number of matches of reVuln and of reTestFail, whether reTestOK matches,
-- an object of raw values (each member once), an array of them, and the documents of the tools (in one of SARIF or of vitest
-- a field may be missing); and whether the number that ParseFloat reads is at least 7.0.
pub record Tools : Type 0 where
  pub affected : Text → Option Text
  pub leaks : Text → Option Text
  pub vulnerabilities : Text → ℕ
  pub test_fails : Text → ℕ
  pub test_ok : Text → Bool
  pub object : Text → Option (List (Text × Text))
  pub array : Text → Option (List Text)
  pub sarif : Text → Option (Option (List SarifRun))
  pub eslint : Text → Option (List (ℤ × ℤ))
  pub vitest : Text → Option (Option ℤ × ℤ)
  pub npm : Text → Option (ℤ × ℤ)
  pub is_high : Text → Option Bool

unfoldable pub suppressed : List Suppression → Text → Text → Bool
suppressed [] rule path = false
suppressed (s ∷ ss) rule path = (equal s.rule rule && equal s.path path) || suppressed ss rule path

-- a raw value of an object
unfoldable pub field_of : Text → List (Text × Text) → Option Text
field_of key [] = none
field_of key ((k, v) ∷ fields) =
    let rest = field_of key fields in if equal k key then some v else rest

unfoldable pub array_length : Option (List Text) → Option ℕ
array_length none = none
array_length (some items) = some (length items)

-- the elements of a member of an object, none where there is no member
unfoldable pub member_length : Tools → Option Text → Option ℕ
unfolding array_length
member_length w none = some 0
member_length w (some raw) = array_length (w.array raw)

-- countJSONArray
unfoldable pub count_json_array : Tools → Text → Text → Option ℕ
unfolding member_length field_of
count_json_array w output field = elim (w.object output) [
  | none ↦ none
  | some fields ↦ member_length w (field_of field fields)
]

-- The severities by rule, the last one that was set first.
index_rules : Tools → List Rule → List (Text × Bool) → List (Text × Bool)
index_rules w [] m = m
index_rules w (r ∷ rs) m = elim (w.is_high r.security_severity) [
  | none ↦ index_rules w rs m
  | some high ↦ index_rules w rs ((r.id, high) ∷ m)
]

index_extensions : Tools → List (List Rule) → List (Text × Bool) → List (Text × Bool)
unfolding index_rules
index_extensions w [] m = m
index_extensions w (rs ∷ exts) m = index_extensions w exts (index_rules w rs m)

severity_of : Text → List (Text × Bool) → Option Bool
severity_of rule [] = none
severity_of rule ((id, high) ∷ m) =
    let rest = severity_of rule m in if equal id rule then some high else rest

abbrev first_path : List Text → Text
first_path [] = []
first_path (path ∷ paths) = path

abbrev is_zero : ℕ → Bool
is_zero zero = true
is_zero (suc n) = false

-- whether a result counts
abbrev counts : List Suppression → SarifResult → Bool
counts suppress r =
    is_zero r.suppressions
    && (if suppressed suppress r.rule_id (first_path r.locations) then false else true)

-- whether it is of high severity
is_high_result : List (Text × Bool) → SarifResult → Bool
unfolding severity_of
is_high_result m r = elim (severity_of r.rule_id m) [
  | some high ↦ high
  | none ↦ equal r.level (codes "error")
]

count_results : List (Text × Bool) → List Suppression → List SarifResult → ℕ × ℕ → ℕ × ℕ
unfolding is_high_result
count_results m suppress [] n = n
count_results m suppress (r ∷ rs) n =
    count_results m suppress rs
      (if counts suppress r then (n.0 + 1, (if is_high_result m r then n.1 + 1 else n.1)) else n)

count_runs : Tools → List Suppression → List SarifRun → ℕ × ℕ → ℕ × ℕ
unfolding count_results index_extensions
count_runs w suppress [] n = n
count_runs w suppress (r ∷ rs) n = count_runs w suppress rs (
    count_results (index_extensions w r.extensions (index_rules w r.driver_rules [])) suppress
      r.results n)

-- sarifCounts
unfoldable pub sarif_counts : Tools → Text → List Suppression → Option (ℕ × ℕ)
unfolding count_runs
sarif_counts w output suppress = elim (w.sarif output) [
  | none ↦ none
  | some runs ↦ elim runs [ none ↦ none | some rs ↦ some (count_runs w suppress rs (0, 0)) ]
]

add_files : List (ℤ × ℤ) → ℤ × ℤ → ℤ × ℤ
add_files [] n = n
add_files (f ∷ fs) n = add_files fs (add_int64 n.0 f.0, add_int64 n.1 f.1)

-- eslintCounts
unfoldable pub eslint_counts : Tools → Text → Option (ℤ × ℤ)
unfolding add_files
eslint_counts w output = elim (w.eslint output) [
  | none ↦ none
  | some files ↦ some (add_files files (pos 0, pos 0))
]

with_total : Option ℤ × ℤ → Option (ℤ × ℤ)
with_total (none, failed) = none
with_total (some total, failed) = some (total, failed)

-- vitestCounts
unfoldable pub vitest_counts : Tools → Text → Option (ℤ × ℤ)
unfolding with_total
vitest_counts w output = elim (w.vitest output) [ none ↦ none | some doc ↦ with_total doc ]

-- npmAuditCounts
unfoldable pub npm_audit_counts : Tools → Text → Option (ℤ × ℤ)
npm_audit_counts w output = w.npm output
