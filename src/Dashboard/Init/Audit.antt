-- ===== src/Dashboard/Init/Audit.antt =====
-- cmd/security-dashboard/init.go: the audit of a config against its project, and `init --check`.
pub mod Laws
use audit_logging.Common.{
  ℕ, ◌+◌, ◌-◌, [], List, ◌∷◌, ◌++◌, map, Bool, true, false, not, ◌&&◌, ◌||◌, Option, none, some,
  ltb, length, contains_func, if◌then◌else◌,
}
use audit_logging.Text.{Text, codes, is_empty, equal}
use audit_logging.Text.Space.{trim_space}
use audit_logging.Text.Fold.{Unicode, equal_fold}
use audit_logging.Text.Decimal.{format_uint}
use audit_logging.Dashboard.Words.{first_word}
use audit_logging.Dashboard.Checks.{CheckDef}
use audit_logging.Dashboard.Checks.Scan.{has_shell_syntax}
use audit_logging.Dashboard.Config.{Config, Asvs, AsvsReqItem, Standard, ComplianceDoc}
use audit_logging.Dashboard.Init.Proposal.{Proposal}

-- The texts of `level`.
pub data Level : Type 0 where
  fail warn : Level

pub record Finding : Type 0 where
  pub level : Level
  pub message : Text

-- What the audit asks: whether os.Stat finds a directory below the root, whether LookPath finds a binary,
-- the verb %q, and the case of letters.
pub record Machine : Type 0 where
  pub is_dir : Text → Bool
  pub look_path : Text → Bool
  pub quote : Text → Text
  pub unicode : Unicode

module _ (m : Machine) where
  unfoldable pub missing_finding : Proposal → Finding
  missing_finding p = record {
    level = if p.required then fail else warn;
    message =
        (if p.required then codes "not covered:" else codes "no check for")
        ++ (codes " "
            ++ (p.signal
                ++ (codes " ("
                    ++ (p.def.name ++ (codes ") — suggested check " ++ m.quote p.def.key)))));
  }

  -- a check that runs in a directory which is not there
  unfoldable pub misplaced : CheckDef → Bool
  misplaced c = not (c.disabled || is_empty c.dir) && not (m.is_dir c.dir)

  unfoldable pub dir_findings : List CheckDef → List Finding
  dir_findings [] = []
  dir_findings (c ∷ cs) =
      let rest = dir_findings cs in
      let it : Finding = record {
        level = fail;
        message =
            codes "check "
            ++ (m.quote c.key
                ++ (codes " runs in " ++ (m.quote c.dir ++ codes ", which does not exist")));
      } in
      if misplaced c then it ∷ rest else rest

  unfoldable pub tool_finding : CheckDef → Text → Finding
  tool_finding c bin =
      let start =
        codes "check "
        ++ (m.quote c.key ++ (codes " needs " ++ (m.quote bin ++ codes ", not installed"))) in
      record {
        level = warn;
        message =
            if is_empty c.install_hint then start else start ++ (codes " — " ++ c.install_hint);
      }

  unfoldable pub tool_findings : List CheckDef → List Finding
  tool_findings [] = []
  tool_findings (c ∷ cs) =
      let rest = tool_findings cs in
      let bin = first_word c.command in
      if c.disabled
      then rest
      else if is_empty bin || has_shell_syntax c.command
      then rest
      else if m.look_path bin
      then rest
      else tool_finding c bin ∷ rest

  -- `mapped`
  unfoldable pub is_mapped : List Standard → ComplianceDoc → Bool
  is_mapped standards d =
      contains_func (λ s. equal s.framework d.id || equal_fold m.unicode s.name d.title) standards

  unfoldable pub doc_findings : List Standard → List ComplianceDoc → List Finding
  doc_findings standards [] = []
  doc_findings standards (d ∷ ds) =
      let rest = doc_findings standards ds in
      let it : Finding = record {
        level = warn;
        message =
            codes "compliance doc "
            ++ (d.path ++ codes " is in scope but has no authored standard/controls");
      } in
      if is_mapped standards d then rest else it ∷ rest

unfoldable pub count_blank : List AsvsReqItem → ℕ
count_blank [] = 0
count_blank (r ∷ rs) =
    let rest = count_blank rs in
    if is_empty (trim_space r.evidence) || equal r.coverage (codes "pending")
    then rest + 1
    else rest

unfoldable pub asvs_findings : Option Asvs → List Finding
asvs_findings none = []
asvs_findings (some a) =
    let blank = count_blank a.requirements in
    let it : Finding = record {
      level = warn;
      message =
          format_uint blank
          ++ (codes " of "
              ++ (format_uint (length a.requirements)
                  ++ codes " ASVS controls have no evidence yet"));
    } in
    if ltb 0 blank then it ∷ [] else []

unfoldable pub audit_config : Machine → Config → List Proposal → List ComplianceDoc → List Finding
audit_config m cfg missing docs =
    map (missing_finding m) missing
    ++ (dir_findings m cfg.checks
        ++ (tool_findings m cfg.checks
            ++ (doc_findings m cfg.standards docs ++ asvs_findings cfg.asvs)))

-- the level in capitals, padded to five
abbrev level_text : Level → Text
level_text fail = codes "FAIL "
level_text warn = codes "WARN "

-- the lines that printFindings prints
unfoldable pub print_findings : List Finding → List Text
print_findings [] = []
print_findings (f ∷ fs) = [] ∷ map (λ x. level_text x.level ++ (codes " " ++ x.message)) (f ∷ fs)

abbrev pub level_count : Level → ℕ → ℕ
level_count fail n = n + 1
level_count warn n = n

-- `fails`
unfoldable pub count_fails : List Finding → ℕ
count_fails [] = 0
count_fails (f ∷ fs) = level_count f.level (count_fails fs)

-- What reportCheck prints, and the exit code of the process.
pub record Report : Type 0 where
  pub said : List Text
  pub exit : ℕ

unfoldable pub report_check : List Finding → Report
report_check f =
    let fails = count_fails f in
    if ltb 0 fails
    then record {
      said =
          print_findings f
          ++ ([]
              ∷ (codes "security-dashboard init --check: "
                  ++ (format_uint fails
                      ++ (codes " drift failure(s), "
                          ++ (format_uint (length f - fails) ++ codes " warning(s)"))))
              ∷ []);
      exit = 1;
    }
    else record {
      said =
          print_findings f
          ++ ([]
              ∷ (codes "security-dashboard init --check: no drift, "
                  ++ (format_uint (length f) ++ codes " warning(s)"))
              ∷ []);
      exit = 0;
    }
