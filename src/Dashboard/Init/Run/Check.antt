-- ===== src/Dashboard/Init/Run/Check.antt =====
-- cmd/security-dashboard/init.go: when `init --check` succeeds.
use audit_logging.Common.{
  ◌≡◌, ◌↔◌, refl, sym, ap, subst, arith, [], List, ◌∷◌, Bool, true, false, not, ◌||◌, All,
  contains_func, Option, none,
}
use audit_logging.Server.Model.{Result, ok, err, ok_injective}
use audit_logging.Text.{Text}
use audit_logging.Dashboard.Checks.{CheckDef}
use audit_logging.Dashboard.Config.{Config}
use audit_logging.Dashboard.Init.Proposal.{Proposal}
use audit_logging.Dashboard.Init.Proposals.{proposals_for}
use audit_logging.Dashboard.Init.Merge.{additions}
use audit_logging.Dashboard.Init.Audit.{Report, audit_config, report_check}
use audit_logging.Dashboard.Init.Audit.Laws.{IsOptional, IsPlaced, report_check-Sound}
use audit_logging.Dashboard.Init.Raw.{Raw}
use audit_logging.Dashboard.Init.World.{InitOpts, World, Files, returned}
use audit_logging.Dashboard.Init.Load.{readable, load}
use audit_logging.Dashboard.Init.Load.Start.{Starts, load-Starts, Starts-load}
use audit_logging.Dashboard.Init.Run.{stack, docs, checked, audited, begun, run_init}

-- A proposal that is a mere recommendation, or that one of the checks covers.
abbrev pub IsMet : List CheckDef → Proposal → Type 0
IsMet checks p = (not p.required || contains_func p.covered checks) ≡ true

additions-IsMet :
    (checks : List CheckDef) (ps : List Proposal)
    → All IsOptional (additions ps checks) ↔ All (IsMet checks) ps
unfolding additions
additions-IsMet checks [] = (λ h. tt, λ h. tt)
additions-IsMet checks (p ∷ ps) = ground (arith, additions-IsMet checks ps)

-- The config has a check for each required proposal, and its checks have their directories.
abbrev pub IsSound : World → Config → Type 0
IsSound w existing =
    All (IsMet existing.checks) (proposals_for (stack w)) × All (IsPlaced w.machine) existing.checks

module _ (w : World) (opts : InitOpts) where
  checked_ended :
      (r : Report) (said : List Text) (files : Files)
      → ((checked w opts r said files).ended ≡ returned none) ↔ (r.exit ≡ 0)
  checked_ended r said files = ground arith

  -- the audit, where the config was loaded
  audited-IsSound :
      (b : Bool) (existing : Config) (said : List Text) (files : Files) (raw : Option Raw)
      → b ≡ true
      → let add = additions (proposals_for (stack w)) existing.checks in
        ((audited w opts b existing add said files raw).ended ≡ returned none) ↔ IsSound w existing
  unfolding audited
  audited-IsSound false existing said files raw c = absurd cc
  audited-IsSound true existing said files raw c =
      let add = additions (proposals_for (stack w)) existing.checks in
      let r = report_check (audit_config w.machine existing add (docs w)) in
      let e = checked_ended r said files in
      let s = report_check-Sound w.machine existing add (docs w) in
      let m = additions-IsMet existing.checks (proposals_for (stack w)) in
      (λ h. let (o, p) = s.0 (e.0 h) in (m.0 o, p), λ h. e.1 (s.1 (m.1 h.0, h.1)))

  begun-IsSound :
      (said : List Text) (files : Files) (r : Result (Option Raw × Config))
      → opts.check ≡ true
      → ((begun w opts said files r).ended ≡ returned none)
        ↔ ((raw : Option Raw) × (existing : Config) × (r ≡ ok (raw, existing)) × IsSound w existing)
  unfolding begun
  begun-IsSound said files (err e) c = (λ h. absurd cc, λ p. let h = p.2 in absurd cc)
  begun-IsSound said files (ok (raw, existing)) c =
      let a = audited-IsSound opts.check existing _ files raw c in
      (
        λ h. (raw, existing, refl, a.0 h),
        λ p.
            let same : existing ≡ p.1 = ap (λ x. x.1) (ok_injective p.2) in
            a.1 (subst (IsSound w) (sym same) p.3),
      )

  -- `init --check` ends without an error and without an exit code exactly if there is a config to start
  -- from, the one that config.json holds or with --force an empty one, in which a check covers each proposal
  -- for the stack that is not a mere recommendation, and each check that is not disabled runs in the root or
  -- in a directory that is there; whatever else the audit finds are warnings.
  pub run_init_check :
      (files : Files)
      → opts.check ≡ true
      → ((run_init w opts files).ended ≡ returned none) ↔ (
          (raw : Option Raw) × (existing : Config) × Starts w opts files raw existing
          × IsSound w existing)
  unfolding run_init
  run_init_check files c =
      let b = begun-IsSound _ files (load w opts (readable files.config w.read_error)) c in
      (
        λ h.
            let (raw, existing, e, s) = b.0 h in
            (raw, existing, load-Starts w opts raw existing files e, s),
        λ p. b.1 (p.0, p.1, Starts-load w opts p.0 p.1 files p.2, p.3),
      )
