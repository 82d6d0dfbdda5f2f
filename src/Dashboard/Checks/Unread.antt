-- ===== src/Dashboard/Checks/Unread.antt =====
-- cmd/security-dashboard/checks.go: a report that cannot be read is never a pass.
use audit_logging.Common.{List, ◌∷◌, ◌≡◌, none, some, ◌≢◌}
use audit_logging.Common.Int.{ℤ}
use audit_logging.Text.{Text, codes}
use audit_logging.Dashboard.Checks.{CheckResult, errored}
use audit_logging.Dashboard.Checks.Counts.{Tools}
use audit_logging.Dashboard.Checks.Parse.{structured}

-- The first member of an object that has the key.
pub data IsMember (key raw : Text) : List (Text × Text) → Type 0 where
  here : (fields : List (Text × Text)) → IsMember key raw ((key, raw) ∷ fields)
  there :
      (k v : Text) (fields : List (Text × Text))
      → k ≢ key
      → IsMember key raw fields
      → IsMember key raw ((k, v) ∷ fields)

-- A document that is no object, or whose member of that key is no array.
pub data IsNoArray (w : Tools) (document key : Text) : Type 0 where
  no_object : w.object document ≡ none → IsNoArray w document key
  no_array :
      (fields : List (Text × Text)) (raw : Text)
      → w.object document ≡ some fields
      → IsMember key raw fields
      → w.array raw ≡ none
      → IsNoArray w document key

-- A document that the decoder of a parser's format refuses: it is no JSON of the format's shape, or has
-- no runs where it should be SARIF.
pub data IsUnread (w : Tools) (document : Text) : Text → Type 0 where
  gosec : IsNoArray w document (codes "Issues") → IsUnread w document (codes "gosec-json")
  semgrep : IsNoArray w document (codes "results") → IsUnread w document (codes "semgrep-json")
  npm : w.npm document ≡ none → IsUnread w document (codes "npm-audit")
  sarif : w.sarif document ≡ none → IsUnread w document (codes "sarif")
  sarif_runs : w.sarif document ≡ some none → IsUnread w document (codes "sarif")
  eslint : w.eslint document ≡ none → IsUnread w document (codes "eslint-json")
  vitest : w.vitest document ≡ none → IsUnread w document (codes "vitest-json")

module _ (w : Tools) (r : CheckResult) (stdout combined : Text) (exit : ℤ) where
  abbrev document : Text
  document = structured stdout combined

  -- the status, and the check that it is the status of
  abbrev Errored : CheckResult → Type 0
  Errored c = (c.status ≡ errored) × (c.def ≡ r.def)
