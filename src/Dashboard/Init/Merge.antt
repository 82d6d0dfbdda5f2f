-- ===== src/Dashboard/Init/Merge.antt =====
-- cmd/security-dashboard/init.go: the merge of the proposals into the checks of a config.
use audit_logging.Common.{
  ◌≡◌, refl, [], List, ◌∷◌, ◌++◌, map, Bool, true, false, All, All-map, ◌||◌, arith, contains_func,
  contains_func-append, if◌then◌else◌,
}
use audit_logging.Text.{codes}
use audit_logging.Dashboard.Checks.{CheckDef}
use audit_logging.Dashboard.Init.Stack.{Stack}
use audit_logging.Dashboard.Init.Proposal.{Proposal}
use audit_logging.Dashboard.Init.Proposals.{proposals_for}
use audit_logging.Dashboard.Init.Proposals.Laws.{IsSettled, proposals_for-IsSettled}

-- `add`: the proposals that no check covers
unfoldable pub additions : List Proposal → List CheckDef → List Proposal
additions [] checks = []
additions (p ∷ ps) checks =
    let rest = additions ps checks in if contains_func p.covered checks then rest else p ∷ rest

abbrev pub stamped : Proposal → CheckDef
stamped p = record p.def { source = codes "detected" }

-- the checks that are there, and those that are added
unfoldable pub merged_checks : List CheckDef → List Proposal → List CheckDef
merged_checks existing add = existing ++ map stamped add

abbrev IsCoveredBy : List CheckDef → List CheckDef → Proposal → Type 0
IsCoveredBy existing new p =
    (contains_func p.covered existing || contains_func p.covered new) ≡ true

additions-IsCoveredBy_step :
    (p : Proposal) (ps add : List Proposal) (existing : List CheckDef) (b : Bool)
    → contains_func p.covered existing ≡ b
    → IsSettled p
    → All (IsCoveredBy existing (map stamped add)) ps
    → All (IsCoveredBy existing (map stamped (if b then add else p ∷ add))) (p ∷ ps)
additions-IsCoveredBy_step p ps add existing true e settled h = (rw e refl, h)
additions-IsCoveredBy_step p ps add existing false e settled h = (
  rw (e, settled (codes "detected")) refl,
  All-map (IsCoveredBy existing (map stamped add)) _ ps (λ q k. ground arith) h,
)

additions-IsCoveredBy :
    (ps : List Proposal) (existing : List CheckDef)
    → All IsSettled ps
    → All (IsCoveredBy existing (map stamped (additions ps existing))) ps
unfolding additions
additions-IsCoveredBy [] existing h = tt
additions-IsCoveredBy (p ∷ ps) existing (settled, h) =
    additions-IsCoveredBy_step p ps (additions ps existing) existing _ refl settled
      (additions-IsCoveredBy ps existing h)

additions-eq-nil :
    (checks : List CheckDef) (ps : List Proposal)
    → All (λ p. contains_func p.covered checks ≡ true) ps
    → additions ps checks ≡ []
unfolding additions
additions-eq-nil checks [] h = refl
additions-eq-nil checks (p ∷ ps) (e, h) = rw e (additions-eq-nil checks ps h)

-- Once the proposals for a stack are merged into any checks, that stack has nothing more to add.
pub merged_checks_twice :
    (s : Stack) (existing : List CheckDef)
    → additions (proposals_for s) (merged_checks existing (additions (proposals_for s) existing))
      ≡ []
unfolding merged_checks
merged_checks_twice s existing =
    let ps = proposals_for s in
    let new = map stamped (additions ps existing) in
    additions-eq-nil (existing ++ new) ps (
      All-map (IsCoveredBy existing new) _ ps
        (λ p k. rw (contains_func-append p.covered existing new) k)
        (additions-IsCoveredBy ps existing (proposals_for-IsSettled s)))
