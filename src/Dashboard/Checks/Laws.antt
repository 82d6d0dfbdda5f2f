-- ===== src/Dashboard/Checks/Laws.antt =====
-- cmd/security-dashboard/checks.go and main.go: the totals of a run and the exit code of a scan.
use audit_logging.Common.{
  ℕ, ◌+◌, [], List, ◌∷◌, ◌≡◌, ◌↔◌, refl, Bool, true, false, ◌&&◌, length, arith, All,
}
use audit_logging.Dashboard.Checks.{
  CheckResult, Status, pass, fail, warn, skipped, errored, Totals, count_result, tally_onto,
  no_totals, tally,
}
use audit_logging.Dashboard.Checks.Scan.{scan_exit}

-- a status that counts as a failure
abbrev pub is_failure : Status → Bool
is_failure fail = true
is_failure errored = true
is_failure _ = false

-- A result that does not make the command fail.
abbrev pub Passable : CheckResult → Type 0
Passable c = (c.def.gating && is_failure c.status) ≡ false

abbrev pub sum : Totals → ℕ
sum t = t.pass + t.fail + t.warn + t.skipped

result-sum : (s : Status) (g : Bool) (t : Totals) → sum (count_result s g t) ≡ sum t + 1
unfolding count_result
result-sum pass g t = omega arith
result-sum fail g t = omega arith
result-sum warn g t = omega arith
result-sum skipped g t = omega arith
result-sum errored g t = omega arith

result-gate :
    (s : Status) (g : Bool) (t : Totals)
    → ((count_result s g t).gating_fail ≡ 0) ↔ (((g && is_failure s) ≡ false) × (t.gating_fail ≡ 0))
unfolding count_result
result-gate pass true t = (λ h. (refl, h), λ h. h.1)
result-gate pass false t = (λ h. (refl, h), λ h. h.1)
result-gate warn true t = (λ h. (refl, h), λ h. h.1)
result-gate warn false t = (λ h. (refl, h), λ h. h.1)
result-gate skipped true t = (λ h. (refl, h), λ h. h.1)
result-gate skipped false t = (λ h. (refl, h), λ h. h.1)
result-gate fail false t = (λ h. (refl, h), λ h. h.1)
result-gate errored false t = (λ h. (refl, h), λ h. h.1)
result-gate fail true t = (λ h. absurd (omega (arith, h)), λ h. absurd cc)
result-gate errored true t = (λ h. absurd (omega (arith, h)), λ h. absurd cc)

onto-sum : (cs : List CheckResult) (t : Totals) → sum (tally_onto cs t) ≡ sum t + length cs
unfolding tally_onto
onto-sum [] t = omega arith
onto-sum (c ∷ cs) t =
    omega (
      arith,
      onto-sum cs (count_result c.status c.def.gating t),
      result-sum c.status c.def.gating t,
    )

onto-gate :
    (cs : List CheckResult) (t : Totals)
    → ((tally_onto cs t).gating_fail ≡ 0) ↔ (All Passable cs × (t.gating_fail ≡ 0))
unfolding tally_onto
onto-gate [] t = (λ h. (tt, h), λ h. h.1)
onto-gate (c ∷ cs) t =
    let (to, from) = onto-gate cs (count_result c.status c.def.gating t) in
    let (to', from') = result-gate c.status c.def.gating t in
    (λ h. (((to' (to h).1).0, (to h).0), (to' (to h).1).1), λ h. from (h.0.1, from' (h.0.0, h.1)))

exit-gate : (t : Totals) → (scan_exit t ≡ 0) ↔ (t.gating_fail ≡ 0)
unfolding scan_exit
exit-gate t = ground arith

-- The totals of a run count each of its results once, and the command `scan` ends with 0 just if no
-- gating check has failed or could not be read.
pub tally_lem :
    (checks : List CheckResult)
    → (sum (tally checks) ≡ length checks) × ((scan_exit (tally checks) ≡ 0) ↔ All Passable checks)
unfolding tally
tally_lem checks =
    let (to, from) = onto-gate checks no_totals in
    let (to', from') = exit-gate (tally_onto checks no_totals) in
    (
      omega (arith, onto-sum checks no_totals),
      (λ h. (to (to' h)).0, λ h. from' (from (h, omega arith))),
    )
