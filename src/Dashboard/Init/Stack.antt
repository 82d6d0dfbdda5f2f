-- ===== src/Dashboard/Init/Stack.antt =====
-- cmd/security-dashboard/init.go: the stack that `init` finds in the project. A path is cut at slashes.
use audit_logging.Common.{
  ℕ, [], List, ◌∷◌, ◌++◌, map, Bool, ◌||◌, Option, none, some, length, take, if◌then◌else◌,
}
use audit_logging.Text.{Text, codes, is_empty, equal}
use audit_logging.Text.Space.{trim_space}
use audit_logging.Text.Split.{split_n}
use audit_logging.Text.Order.{sort_texts, cut_prefix, trim_suffix}
use audit_logging.Json.{Json, str, Object}
use audit_logging.Forwarder.Parser.{lookup}
use audit_logging.Dashboard.Config.{ComplianceDoc}

-- A directory as filepath.WalkDir goes through it: the entries that could be read, in its order. What is
-- no directory is a file.
mutual
  pub data Node : Type 0 where
    file : Text → Node
    dir : Text → Entries → Node

  pub data Entries : Type 0 where
    end : Entries
    entry : Node → Entries → Entries

pub record NodeProject : Type 0 where
  pub dir : Text
  pub pm : Text

pub record Stack : Type 0 where
  pub go_mod : Bool
  pub node : List NodeProject
  pub python : Bool
  pub php : Bool
  pub ruby : Bool
  pub rust : Bool
  pub jvm : Bool
  pub docker : Bool
  pub terraform : Bool
  pub manual_doc : Text
  pub app_name : Text
  pub repo : Text

-- The project that is looked at: its directory, os.ReadFile and os.Stat on paths from its root, the text
-- that bytes stand for, json.Unmarshal into a map, the last element of the root's absolute path, what
-- git prints for its remote, the files that Glob finds in the compliance directory with os.ReadFile on
-- their paths, filepath.Rel from the root and filepath.Base.
pub record Project : Type 0 where
  pub tree : Entries
  pub read_file : Text → Option (List ℕ)
  pub stat : Text → Bool
  pub text_of : List ℕ → Text
  pub unmarshal : Text → Option Object
  pub base : Option Text
  pub remote : Option Text
  pub compliance : List Text
  pub read_doc : Text → Option (List ℕ)
  pub relative : Text → Option Text
  pub base_of : Text → Text

-- filepath.Join, of a directory that "" names at the root
abbrev pub under : Text → Text → Text
under d name = if is_empty d then name else d ++ (b'/' ∷ name)

-- skipDirs
unfoldable pub skip_dirs : Text → Bool
skip_dirs name =
    equal name (codes "node_modules")
    || equal name (codes "vendor")
    || equal name (codes "dist")
    || equal name (codes "build")
    || equal name (codes "out")
    || equal name (codes "target")
    || equal name (codes "coverage")
    || equal name (codes "__pycache__")
    || equal name (codes "venv")
    || equal name (codes ".venv")
    || equal name (codes "tmp")
    || equal name (codes "testdata")

-- strings.Split(s, "\n")
abbrev lines : Text → List Text
lines s = split_n (length s) b'\n' s

last_of : Text → List Text → Text
last_of d [] = d
last_of d (s ∷ ss) = last_of s ss

-- the first line behind a prefix, trimmed
first_behind : Text → List Text → Option Text
first_behind prefix [] = none
first_behind prefix (s ∷ ss) =
    let rest = first_behind prefix ss in
    elim (cut_prefix (trim_space s) prefix) [ some t ↦ some (trim_space t) | none ↦ rest ]

unfoldable pub module_name : Project → Text → Text
unfolding first_behind last_of
module_name p path = elim (p.read_file path) [
  | none ↦ []
  | some bytes ↦ elim (first_behind (codes "module ") (lines (p.text_of bytes))) [
    | none ↦ []
    | some t ↦ last_of [] (split_n (length t) b'/' t)
  ]
]

unfoldable pub package_manager : Project → Text → Text
package_manager p d =
    if p.stat (under d (codes "pnpm-lock.yaml"))
    then codes "pnpm"
    else if p.stat (under d (codes "yarn.lock"))
    then codes "yarn"
    else codes "npm"

text_or_empty : Json → Text
text_or_empty (str s) = s
text_or_empty _ = []

unfoldable pub json_field : Project → Text → Text → Text
unfolding text_or_empty
json_field p path name = elim (p.read_file path) [
  | none ↦ []
  | some bytes ↦ elim (p.unmarshal (p.text_of bytes)) [
    | none ↦ []
    | some m ↦ text_or_empty (lookup name m)
  ]
]

unfoldable pub markdown_title : Project → Text → Text → Text
unfolding first_behind
markdown_title p path fallback = elim (p.read_doc path) [
  | none ↦ fallback
  | some bytes ↦ elim (first_behind (codes "# ") (lines (p.text_of (take 4096 bytes)))) [
    | none ↦ fallback
    | some t ↦ t
  ]
]

-- detectComplianceDocs
compliance_doc : Project → Text → ComplianceDoc
compliance_doc p m =
    let id = trim_suffix (p.base_of m) (codes ".md") in
    record {
      id = id;
      title = markdown_title p m id;
      path = elim (p.relative m) [ none ↦ m | some rel ↦ rel ];
    }

unfoldable pub detect_compliance_docs : Project → List ComplianceDoc
unfolding compliance_doc
detect_compliance_docs p = map (compliance_doc p) (sort_texts p.compliance)
