-- ===== src/Dashboard/Init/Proposal.antt =====
-- cmd/security-dashboard/init.go: a proposed check, what covers it, and the proposal for a Node project.
use audit_logging.Common.{[], ◌++◌, map, Bool, true, false, ◌&&◌, ◌||◌, ◌==◌, if◌then◌else◌}
use audit_logging.Text.{Text, codes, is_empty, equal, contains}
use audit_logging.Dashboard.Checks.{CheckDef}
use audit_logging.Dashboard.Init.Stack.{NodeProject}

pub record Proposal : Type 0 where
  pub signal : Text
  pub required : Bool
  pub def : CheckDef
  pub covered : CheckDef → Bool

unfoldable pub cmd_has : Text → CheckDef → Bool
cmd_has sub c = contains c.command sub

unfoldable pub parser_is : Text → CheckDef → Bool
parser_is p c = equal c.parser p

unfoldable pub tool_or_cmd : Text → CheckDef → Bool
tool_or_cmd tool c = equal c.tool tool || contains c.command tool

-- a CheckDef literal
abbrev pub proposed : Text → Text → Text → Text → Bool → Text → Text → Text → CheckDef
proposed key name category tool gating command parser install_hint = record {
  key = key;
  name = name;
  category = category;
  tool = tool;
  gating = gating;
  command = command;
  parser = parser;
  dir = [];
  install_hint = install_hint;
  probe = [];
  suppress = [];
  source = [];
  disabled = false;
  reason = [];
}

-- strings.ReplaceAll(s, "/", "-")
unfoldable pub dashed : Text → Text
dashed s = map (λ c. if c == b'/' then b'-' else c) s

audit_command : Text → Text
audit_command pm =
    if equal pm (codes "npm")
    then codes "npm audit --json"
    else if equal pm (codes "yarn")
    then codes "yarn npm audit --json"
    else if equal pm (codes "pnpm")
    then codes "pnpm audit --json"
    else []

manager_hint : Text → Text
manager_hint pm =
    if equal pm (codes "yarn")
    then codes "npm i -g yarn"
    else if equal pm (codes "pnpm")
    then codes "npm i -g pnpm"
    else []

unfoldable pub node_proposal : NodeProject → Proposal
unfolding audit_command manager_hint
node_proposal n =
    let key = if is_empty n.dir then codes "npm-audit" else codes "npm-audit-" ++ dashed n.dir in
    let where_text = if is_empty n.dir then codes "." else n.dir in
    record {
      signal = codes "Node project at " ++ where_text;
      required = true;
      def =
          record (proposed key (codes "Dependency audit (" ++ (where_text ++ codes ")"))
            (codes "Dependencies") n.pm false (audit_command n.pm) (codes "npm-audit")
            (manager_hint n.pm)) { dir = n.dir };
      covered = λ c.
          equal c.dir n.dir
          && (equal c.parser (codes "npm-audit") || contains c.command (codes "audit"));
    }
