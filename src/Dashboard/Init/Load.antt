-- ===== src/Dashboard/Init/Load.antt =====
-- cmd/security-dashboard/init.go: the config that runInit starts from, and the members that it sets.
pub mod Laws
pub mod Start
use audit_logging.Common.{[], List, ◌∷◌, ◌++◌, Bool, true, false, Option, none, some, if◌then◌else◌}
use audit_logging.Text.{Text, codes, is_empty}
use audit_logging.Server.Model.{Error, failure, Result, ok, err}
use audit_logging.Forwarder.Checkpoint.{about}
use audit_logging.Dashboard.Checks.{CheckDef}
use audit_logging.Dashboard.Config.{App, Config, no_config, ComplianceDoc}
use audit_logging.Dashboard.Init.Stack.{Stack}
use audit_logging.Dashboard.Init.Raw.{Raw, set_json, has_member}
use audit_logging.Dashboard.Init.World.{InitOpts, Codec, World}

-- a field, or what stands in for it while it is ""
abbrev or_else : Text → Text → Text
or_else s d = if is_empty s then d else s

-- the bytes that os.ReadFile gives, if it gives any
abbrev pub readable : Option Text → Option Error → Option Text
readable none e = none
readable (some text) (some e) = none
readable (some text) none = some text

-- the members of config.json and its value
module _ (w : World) (opts : InitOpts) where
  unfoldable pub both : Result (Option Raw) → Result Config → Result (Option Raw × Config)
  both (err e) c = err (about (codes "parse " ++ w.config_path) e)
  both (ok raw) (err e) = err (about (codes "parse " ++ w.config_path) e)
  both (ok raw) (ok c) = ok (raw, c)

  unfoldable pub load : Option Text → Result (Option Raw × Config)
  unfolding both
  load none =
      if opts.check
      then err (failure (w.config_path ++ codes " does not exist — run `init` first"))
      else ok (some [], no_config)
  load (some text) =
      if opts.force
      then ok (some [], no_config)
      else both (w.codec.decode_raw text) (w.codec.decode_config text)

  abbrev pub load_lines : Option Text → List Text
  load_lines none = []
  load_lines (some text) =
      if opts.force
      then (codes "security-dashboard init: --force — rebuilding "
          ++ (w.config_path ++ codes " from scratch"))
        ∷ []
      else []

abbrev is_nil {ℓ} : {A : Type ℓ} → List A → Bool
is_nil [] = true
is_nil (x ∷ xs) = false

-- the members that are set under a condition
unfoldable pub note_manual : Codec → Text → Raw → Raw
note_manual c manual raw =
    if is_empty manual then raw else set_json (codes "manualDoc") (c.text manual) raw

unfoldable pub note_docs : Codec → List ComplianceDoc → Raw → Raw
note_docs c docs raw =
    if is_nil docs then raw else set_json (codes "complianceDocs") (c.docs docs) raw

unfoldable pub seed_standards : Codec → Raw → Raw
seed_standards c raw =
    if has_member (codes "standards") raw
    then raw
    else set_json (codes "standards") (c.standards []) raw

-- the name and the repository, where the config has none
abbrev pub filled_app : App → Stack → App
filled_app app st = record app {
  name = or_else app.name st.app_name;
  repo = or_else app.repo st.repo;
}

-- the raw members after every setJSON of runInit
unfoldable pub final_raw : Codec → Config → Stack → List ComplianceDoc → List CheckDef → Raw → Raw
final_raw c existing st docs checks raw = seed_standards c (
    note_docs c docs (
      note_manual c (or_else existing.manual_doc st.manual_doc) (
        set_json (codes "checks") (c.checks checks)
          (set_json (codes "app") (some (c.app (filled_app existing.app st))) raw))))
