-- ===== src/Dashboard/Checks.antt =====
-- cmd/security-dashboard/checks.go and main.go: the checks, their results and the totals of a run.
pub mod Counts
pub mod Parse
pub mod Scan
pub mod Laws
pub mod Unread
use audit_logging.Common.{ℕ, ◌+◌, [], List, ◌∷◌, Bool, true, false, if◌then◌else◌}
use audit_logging.Common.Int.{ℤ, pos}
use audit_logging.Text.{Text, codes}

pub record Suppression : Type 0 where
  pub rule : Text
  pub path : Text
  pub reason : Text

pub record CheckDef : Type 0 where
  pub key : Text
  pub name : Text
  pub category : Text
  pub tool : Text
  pub gating : Bool
  pub command : Text
  pub parser : Text
  pub dir : Text
  pub install_hint : Text
  pub probe : Text
  pub suppress : List Suppression
  pub source : Text
  pub disabled : Bool
  pub reason : Text

-- The texts of `Status`: pass, fail, warn, skipped and error.
pub data Status : Type 0 where
  pass fail warn skipped errored : Status

pub record CheckResult : Type 0 where
  pub def : CheckDef
  pub status : Status
  pub summary : Text
  pub findings : ℤ
  pub report_file : Text
  pub duration_ms : ℤ

pub record Totals : Type 0 where
  pub pass : ℕ
  pub fail : ℕ
  pub warn : ℕ
  pub skipped : ℕ
  pub gating_fail : ℕ

-- one more result counted
unfoldable pub count_result : Status → Bool → Totals → Totals
count_result pass gating t = record t { pass = t.pass + 1 }
count_result fail gating t = record t {
  fail = t.fail + 1;
  gating_fail = if gating then t.gating_fail + 1 else t.gating_fail;
}
count_result errored gating t = record t {
  fail = t.fail + 1;
  gating_fail = if gating then t.gating_fail + 1 else t.gating_fail;
}
count_result warn gating t = record t { warn = t.warn + 1 }
count_result skipped gating t = record t { skipped = t.skipped + 1 }

unfoldable pub tally_onto : List CheckResult → Totals → Totals
tally_onto [] t = t
tally_onto (c ∷ cs) t = tally_onto cs (count_result c.status c.def.gating t)

abbrev pub no_totals : Totals
no_totals = record { pass = 0; fail = 0; warn = 0; skipped = 0; gating_fail = 0 }

unfoldable pub tally : List CheckResult → Totals
tally checks = tally_onto checks no_totals

unfoldable pub status_glyph : Status → Text
status_glyph pass = codes "✓ pass"
status_glyph fail = codes "✗ FAIL"
status_glyph errored = codes "✗ FAIL"
status_glyph warn = codes "! warn"
status_glyph skipped = codes "– skipped"
