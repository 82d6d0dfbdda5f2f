-- ===== src/Dashboard/Render/Laws.antt =====
-- cmd/security-dashboard/render.go: what the headline says of the checks.
use audit_logging.Common.{ℕ, ◌+◌, ◌≤◌, [], List, ◌∷◌, ◌≡◌, ◌↔◌, refl, Bool, true, false, arith, All}
use audit_logging.Dashboard.Checks.{
  CheckResult, Status, pass, fail, warn, skipped, errored, Totals, count_result, tally_onto,
  no_totals, tally,
}
use audit_logging.Dashboard.Render.{green, posture}

abbrev pub HasPassed : CheckResult → Type 0
HasPassed c = c.status ≡ pass

-- what keeps a run from being green
abbrev troubles : Totals → ℕ
troubles t = t.fail + t.warn + t.skipped

result-trouble :
    (s : Status) (g : Bool) (t : Totals)
    → (troubles (count_result s g t) ≡ 0) ↔ ((s ≡ pass) × (troubles t ≡ 0))
unfolding count_result
result-trouble pass g t = (λ h. (refl, h), λ h. h.1)
result-trouble fail g t = (λ h. absurd (omega (arith, h)), λ h. absurd cc)
result-trouble errored g t = (λ h. absurd (omega (arith, h)), λ h. absurd cc)
result-trouble warn g t = (λ h. absurd (omega (arith, h)), λ h. absurd cc)
result-trouble skipped g t = (λ h. absurd (omega (arith, h)), λ h. absurd cc)

result-bound :
    (s : Status) (g : Bool) (t : Totals)
    → t.gating_fail ≤ t.fail
    → (count_result s g t).gating_fail ≤ (count_result s g t).fail
unfolding count_result
result-bound pass g t h = h
result-bound warn g t h = h
result-bound skipped g t h = h
result-bound fail true t h = omega arith
result-bound fail false t h = omega arith
result-bound errored true t h = omega arith
result-bound errored false t h = omega arith

onto-bound :
    (cs : List CheckResult) (t : Totals)
    → t.gating_fail ≤ t.fail
    → (tally_onto cs t).gating_fail ≤ (tally_onto cs t).fail
unfolding tally_onto
onto-bound [] t h = h
onto-bound (c ∷ cs) t h =
    onto-bound cs (count_result c.status c.def.gating t) (result-bound c.status c.def.gating t h)

onto-trouble :
    (cs : List CheckResult) (t : Totals)
    → (troubles (tally_onto cs t) ≡ 0) ↔ (All HasPassed cs × (troubles t ≡ 0))
unfolding tally_onto
onto-trouble [] t = (λ h. (tt, h), λ h. h.1)
onto-trouble (c ∷ cs) t =
    let (to, from) = onto-trouble cs (count_result c.status c.def.gating t) in
    let (to', from') = result-trouble c.status c.def.gating t in
    (λ h. (((to' (to h).1).0, (to h).0), (to' (to h).1).1), λ h. from (h.0.1, from' (h.0.0, h.1)))

green-trouble :
    (t : Totals) → t.gating_fail ≤ t.fail → ((posture t).code ≡ green) ↔ (troubles t ≡ 0)
unfolding posture
green-trouble t h = ground arith

-- The headline of a run is green just if every check of the run has passed: no failure, no error, no
-- advisory and no check that was skipped is shown as green.
pub posture-green :
    (checks : List CheckResult) → ((posture (tally checks)).code ≡ green) ↔ All HasPassed checks
unfolding tally
posture-green checks =
    let (to, from) = onto-trouble checks no_totals in
    let (to', from') =
      green-trouble (tally_onto checks no_totals) (onto-bound checks no_totals (omega arith)) in
    (λ h. (to (to' h)).0, λ h. from' (from (h, omega arith)))
