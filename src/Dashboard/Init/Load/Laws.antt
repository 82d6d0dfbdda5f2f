-- ===== src/Dashboard/Init/Load/Laws.antt =====
-- cmd/security-dashboard/init.go: the setJSON calls of runInit, member by member.
use audit_logging.Common.{
  ◌≡◌, refl, ◌∙◌, arith, [], List, ◌∷◌, false, Option, some, Bool-cases, inl, inr,
}
use audit_logging.Text.{Text, codes, equal}
use audit_logging.Text.Space.{trim_space}
use audit_logging.Text.Equal.{equal_iff}
use audit_logging.Dashboard.Checks.{CheckDef}
use audit_logging.Dashboard.Config.{Config, ComplianceDoc}
use audit_logging.Dashboard.Init.Stack.{Stack}
use audit_logging.Dashboard.Init.Raw.{Raw, find_member, has_member, set_json, listed}
use audit_logging.Dashboard.Init.Raw.Laws.{
  find_member-set_json, find_member-put_self, IsMap, set_json-IsMap,
}
use audit_logging.Dashboard.Init.World.{Codec}
use audit_logging.Dashboard.Init.Load.{
  filled_app, note_manual, note_docs, seed_standards, final_raw,
}

-- The members that `init` keeps up itself.
abbrev pub own_keys : List Text
own_keys = codes "app" ∷ codes "checks" ∷ codes "manualDoc" ∷ codes "complianceDocs" ∷ []

module _ (k v : Text) where
  set_json-Keeps :
      (key : Text) (t : Option Text) (raw : Raw)
      → equal k key ≡ false
      → find_member k raw ≡ some v
      → find_member k (set_json key t raw) ≡ some v
  set_json-Keeps key t raw ne h = rw (find_member-set_json k key t raw ne) h

  note_manual-Keeps :
      (c : Codec) (manual : Text) (raw : Raw)
      → equal k (codes "manualDoc") ≡ false
      → find_member k raw ≡ some v
      → find_member k (note_manual c manual raw) ≡ some v
  unfolding note_manual
  note_manual-Keeps c manual raw ne h = ground (arith, set_json-Keeps _ (c.text manual) raw ne h)

  note_docs-Keeps :
      (c : Codec) (ds : List ComplianceDoc) (raw : Raw)
      → equal k (codes "complianceDocs") ≡ false
      → find_member k raw ≡ some v
      → find_member k (note_docs c ds raw) ≡ some v
  unfolding note_docs
  note_docs-Keeps c ds raw ne h = ground (arith, set_json-Keeps _ (c.docs ds) raw ne h)

  seed_standards-Keeps :
      (c : Codec) (raw : Raw)
      → find_member k raw ≡ some v
      → find_member k (seed_standards c raw) ≡ some v
  unfolding seed_standards has_member
  seed_standards-Keeps c raw h = elim (Bool-cases (equal k (codes "standards"))) [
    | inl e ↦ ground (arith, equal_iff k (codes "standards"))
    | inr e ↦ ground (arith, set_json-Keeps (codes "standards") (c.standards []) raw e h)
  ]

  -- A member that is not `app`, `checks`, `manualDoc` or `complianceDocs` has, after every setJSON of
  -- runInit, the text that it had in the file.
  pub final_raw-Keeps :
      (c : Codec) (existing : Config) (st : Stack) (ds : List ComplianceDoc)
      (checks : List CheckDef) (raw : Raw)
      → listed k own_keys ≡ false
      → find_member k raw ≡ some v
      → find_member k (final_raw c existing st ds checks raw) ≡ some v
  unfolding final_raw listed
  final_raw-Keeps c existing st ds checks raw foreign h = seed_standards-Keeps c _ (
      note_docs-Keeps c ds _ (ground arith) (
        note_manual-Keeps c _ _ (ground arith)
          (set_json-Keeps _ _ _ (ground arith) (set_json-Keeps _ _ raw (ground arith) h))))

-- The setJSON calls leave the other members.
module _ (k : Text) where
  note_manual-find :
      (c : Codec) (manual : Text) (raw : Raw)
      → equal k (codes "manualDoc") ≡ false
      → find_member k (note_manual c manual raw) ≡ find_member k raw
  unfolding note_manual
  note_manual-find c manual raw ne =
      ground (arith, find_member-set_json k (codes "manualDoc") (c.text manual) raw ne)

  note_docs-find :
      (c : Codec) (ds : List ComplianceDoc) (raw : Raw)
      → equal k (codes "complianceDocs") ≡ false
      → find_member k (note_docs c ds raw) ≡ find_member k raw
  unfolding note_docs
  note_docs-find c ds raw ne =
      ground (arith, find_member-set_json k (codes "complianceDocs") (c.docs ds) raw ne)

  seed_standards-find :
      (c : Codec) (raw : Raw)
      → equal k (codes "standards") ≡ false
      → find_member k (seed_standards c raw) ≡ find_member k raw
  unfolding seed_standards
  seed_standards-find c raw ne =
      ground (arith, find_member-set_json k (codes "standards") (c.standards []) raw ne)

  pub final_raw-find :
      (c : Codec) (existing : Config) (st : Stack) (ds : List ComplianceDoc)
      (checks : List CheckDef) (raw : Raw)
      → listed k own_keys ≡ false
      → equal k (codes "standards") ≡ false
      → find_member k (final_raw c existing st ds checks raw) ≡ find_member k raw
  unfolding final_raw listed
  final_raw-find c existing st ds checks raw foreign ne =
      seed_standards-find c _ ne
      ∙ note_docs-find c ds _ (ground arith)
      ∙ note_manual-find c _ _ (ground arith)
      ∙ find_member-set_json k (codes "checks") (c.checks checks) _ (ground arith)
      ∙ find_member-set_json k (codes "app") (some (c.app (filled_app existing.app st))) raw
          (ground arith)

-- The member `checks` is what the encoder gives for the merged checks.
pub final_raw_checks :
    (c : Codec) (existing : Config) (st : Stack) (ds : List ComplianceDoc) (checks : List CheckDef)
    (raw : Raw) {s : Text}
    → c.checks checks ≡ some s
    → find_member (codes "checks") (final_raw c existing st ds checks raw) ≡ some (trim_space s)
unfolding final_raw equal set_json
final_raw_checks c existing st ds checks raw {s} h =
    let k = codes "checks" in
    let v = trim_space s in
    seed_standards-Keeps k v c _ (
      note_docs-Keeps k v c ds _ refl
        (note_manual-Keeps k v c _ _ refl (rw h (find_member-put_self k v _))))

note_manual-IsMap :
    (c : Codec) (manual : Text) (raw : Raw) → IsMap raw → IsMap (note_manual c manual raw)
unfolding note_manual
note_manual-IsMap c manual raw h =
    ground (arith, set_json-IsMap (codes "manualDoc") (c.text manual) raw h)

note_docs-IsMap :
    (c : Codec) (ds : List ComplianceDoc) (raw : Raw) → IsMap raw → IsMap (note_docs c ds raw)
unfolding note_docs
note_docs-IsMap c ds raw h =
    ground (arith, set_json-IsMap (codes "complianceDocs") (c.docs ds) raw h)

seed_standards-IsMap : (c : Codec) (raw : Raw) → IsMap raw → IsMap (seed_standards c raw)
unfolding seed_standards
seed_standards-IsMap c raw h =
    ground (arith, set_json-IsMap (codes "standards") (c.standards []) raw h)

pub final_raw-IsMap :
    (c : Codec) (existing : Config) (st : Stack) (ds : List ComplianceDoc) (checks : List CheckDef)
    (raw : Raw)
    → IsMap raw
    → IsMap (final_raw c existing st ds checks raw)
unfolding final_raw
final_raw-IsMap c existing st ds checks raw h = seed_standards-IsMap c _ (
    note_docs-IsMap c ds _ (
      note_manual-IsMap c _ _ (
        set_json-IsMap (codes "checks") (c.checks checks) _
          (set_json-IsMap (codes "app") (some (c.app (filled_app existing.app st))) raw h))))
