-- ===== src/Dashboard/Init/Seeds.antt =====
-- cmd/security-dashboard/init.go: the words on a stack, and the manual tasks that `init` seeds.
use audit_logging.Common.{[], List, ◌∷◌, ◌++◌, map, Bool, if◌then◌else◌}
use audit_logging.Common.Int.{pos}
use audit_logging.Text.{Text, codes, is_empty}
use audit_logging.Dashboard.Tasks.{Task}
use audit_logging.Dashboard.Init.Stack.{NodeProject, Stack}

unfoldable pub summary_line : Bool → Text → List Text
summary_line found s = if found then s ∷ [] else []

abbrev node_line : NodeProject → Text
node_line n =
    codes "Node project at "
    ++ ((if is_empty n.dir then codes "." else n.dir) ++ (codes " (" ++ (n.pm ++ codes ")")))

abbrev or_none_found : List Text → List Text
or_none_found [] = codes "no language stack recognised — only universal checks apply" ∷ []
or_none_found (s ∷ ss) = s ∷ ss

-- stack.summary
unfoldable pub stack_summary : Stack → List Text
stack_summary s = or_none_found (
    summary_line s.go_mod (codes "Go module (go.mod)")
    ++ (map node_line s.node
        ++ (summary_line s.python (codes "Python project")
            ++ (summary_line s.php (codes "PHP project (composer)")
                ++ (summary_line s.ruby (codes "Ruby project (Gemfile)")
                    ++ (summary_line s.rust (codes "Rust crate (Cargo.toml)")
                        ++ (summary_line s.jvm (codes "JVM project (maven/gradle)")
                            ++ (summary_line s.docker (codes "Dockerfile")
                                ++ summary_line s.terraform (codes "Terraform")))))))))

-- baselineTasks
baseline : Text → Text → Text → Text → Text → Task
baseline id title category cadence notes = record {
  id = id;
  title = title;
  category = category;
  cadence = cadence;
  owner = [];
  status = codes "pending";
  last_run = [];
  next_due = [];
  doc_anchor = [];
  notes = notes;
  last_note = [];
  interval_days = pos 0;
  source = codes "baseline";
}

unfoldable pub baseline_tasks : List Task
unfolding baseline
baseline_tasks =
    baseline (codes "threat-model-review") (codes "Threat-model review") (codes "Design")
      (codes "Every release") (codes "Re-review trust boundaries when a new integration lands.")
    ∷ baseline (codes "access-review") (codes "User & role access review") (codes "Access control")
        (codes "Quarterly") (codes "Confirm every operator role still needs its permissions.")
    ∷ baseline (codes "dependency-review") (codes "Dependency review") (codes "Dependencies")
        (codes "Monthly") (codes "Triage advisories the automated audit reports as accepted risk.")
    ∷ baseline (codes "pen-test") (codes "External penetration test") (codes "Dynamic")
        (codes "Annually") (codes "Independent test against a staging environment.")
    ∷ baseline (codes "backup-restore-test") (codes "Backup restore test") (codes "Infrastructure")
        (codes "Quarterly") (codes "Prove a restore actually works, not just that backups run.")
    ∷ baseline (codes "incident-response-drill") (codes "Incident-response drill")
        (codes "Operations") (codes "Annually")
        (codes "Walk a breach scenario end to end, including notification duties.")
    ∷ []
