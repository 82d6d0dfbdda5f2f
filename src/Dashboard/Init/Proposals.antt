-- ===== src/Dashboard/Init/Proposals.antt =====
-- cmd/security-dashboard/init.go: the checks that `init` proposes for a stack.
pub mod Laws
use audit_logging.Common.{[], List, ◌∷◌, ◌++◌, map, Bool, true, false, if◌then◌else◌}
use audit_logging.Text.{Text, codes}
use audit_logging.Dashboard.Checks.{CheckDef}
use audit_logging.Dashboard.Init.Stack.{Stack}
use audit_logging.Dashboard.Init.Proposal.{
  Proposal, cmd_has, parser_is, tool_or_cmd, proposed, node_proposal,
}

unfoldable pub go_proposals : List Proposal
go_proposals =
    record {
      signal = codes "Go module";
      required = true;
      def =
          proposed (codes "build") (codes "Compile") (codes "Quality") (codes "go") true
            (codes "go build ./...") (codes "exit") [];
      covered = cmd_has (codes "go build");
    }
    ∷ record {
      signal = codes "Go module";
      required = true;
      def =
          proposed (codes "vet") (codes "go vet") (codes "Quality") (codes "go") true
            (codes "go vet ./...") (codes "exit") [];
      covered = cmd_has (codes "go vet");
    }
    ∷ record {
      signal = codes "Go module";
      required = true;
      def =
          proposed (codes "tests") (codes "Test suite") (codes "Quality") (codes "go test") true
            (codes "go test ./...") (codes "gotest") [];
      covered = cmd_has (codes "go test");
    }
    ∷ record {
      signal = codes "Go module";
      required = true;
      def =
          proposed (codes "govulncheck") (codes "Known vulnerabilities (Go)") (codes "Dependencies")
            (codes "govulncheck") true (codes "govulncheck ./...") (codes "govulncheck")
            (codes "go install golang.org/x/vuln/cmd/govulncheck@latest");
      covered = tool_or_cmd (codes "govulncheck");
    }
    ∷ record {
      signal = codes "Go module";
      required = false;
      def =
          proposed (codes "gosec") (codes "Static analysis (Go)") (codes "SAST") (codes "gosec")
            false (codes "gosec -fmt=json -quiet ./...") (codes "gosec-json")
            (codes "go install github.com/securego/gosec/v2/cmd/gosec@latest");
      covered = parser_is (codes "gosec-json");
    }
    ∷ []

unfoldable pub python_proposals : List Proposal
python_proposals =
    record {
      signal = codes "Python project";
      required = true;
      def =
          proposed (codes "pip-audit") (codes "Known vulnerabilities (Python)")
            (codes "Dependencies") (codes "pip-audit") true (codes "pip-audit --strict")
            (codes "exit") (codes "pipx install pip-audit");
      covered = tool_or_cmd (codes "pip-audit");
    }
    ∷ record {
      signal = codes "Python project";
      required = false;
      def =
          proposed (codes "bandit") (codes "Static analysis (Python)") (codes "SAST")
            (codes "bandit") false (codes "bandit -r . -q") (codes "exit")
            (codes "pipx install bandit");
      covered = tool_or_cmd (codes "bandit");
    }
    ∷ []

unfoldable pub php_proposals : List Proposal
php_proposals =
    record {
      signal = codes "PHP project";
      required = true;
      def =
          proposed (codes "composer-audit") (codes "Known vulnerabilities (PHP)")
            (codes "Dependencies") (codes "composer") true (codes "composer audit") (codes "exit")
            [];
      covered = tool_or_cmd (codes "composer");
    }
    ∷ []

unfoldable pub ruby_proposals : List Proposal
ruby_proposals =
    record {
      signal = codes "Ruby project";
      required = true;
      def =
          proposed (codes "bundler-audit") (codes "Known vulnerabilities (Ruby)")
            (codes "Dependencies") (codes "bundler-audit") true
            (codes "bundler-audit check --update") (codes "exit")
            (codes "gem install bundler-audit");
      covered = tool_or_cmd (codes "bundler-audit");
    }
    ∷ []

unfoldable pub rust_proposals : List Proposal
rust_proposals =
    record {
      signal = codes "Rust crate";
      required = true;
      def =
          proposed (codes "cargo-audit") (codes "Known vulnerabilities (Rust)")
            (codes "Dependencies") (codes "cargo") true (codes "cargo audit") (codes "exit")
            (codes "cargo install cargo-audit");
      covered = cmd_has (codes "cargo audit");
    }
    ∷ []

unfoldable pub jvm_proposals : List Proposal
jvm_proposals =
    record {
      signal = codes "JVM project";
      required = true;
      def =
          proposed (codes "osv-scanner") (codes "Known vulnerabilities (OSV)")
            (codes "Dependencies") (codes "osv-scanner") true (codes "osv-scanner -r .")
            (codes "exit") (codes "brew install osv-scanner");
      covered = tool_or_cmd (codes "osv-scanner");
    }
    ∷ []

unfoldable pub universal_proposals : List Proposal
universal_proposals =
    record {
      signal = codes "any repository";
      required = true;
      def =
          proposed (codes "gitleaks") (codes "Secret scan") (codes "Secrets") (codes "gitleaks")
            false (codes "gitleaks detect --no-banner --redact") (codes "gitleaks")
            (codes "brew install gitleaks");
      covered = parser_is (codes "gitleaks");
    }
    ∷ record {
      signal = codes "any repository";
      required = false;
      def =
          proposed (codes "semgrep") (codes "Static analysis (OWASP Top 10)") (codes "SAST")
            (codes "semgrep") false (codes "semgrep --config p/owasp-top-ten --json --quiet")
            (codes "semgrep-json") (codes "pipx install semgrep");
      covered = parser_is (codes "semgrep-json");
    }
    ∷ record {
      signal = codes "any repository";
      required = false;
      def =
          proposed (codes "sbom") (codes "Software bill of materials") (codes "Supply chain")
            (codes "syft") false (codes "syft . -o cyclonedx-json") (codes "exit")
            (codes "brew install syft");
      covered = tool_or_cmd (codes "syft");
    }
    ∷ []

unfoldable pub docker_proposals : List Proposal
docker_proposals =
    record {
      signal = codes "Dockerfile";
      required = false;
      def =
          proposed (codes "trivy-fs") (codes "Image & config scan") (codes "Infrastructure")
            (codes "trivy") false (codes "trivy fs --scanners vuln,secret,misconfig --quiet .")
            (codes "exit") (codes "brew install trivy");
      covered = tool_or_cmd (codes "trivy");
    }
    ∷ []

unfoldable pub terraform_proposals : List Proposal
terraform_proposals =
    record {
      signal = codes "Terraform";
      required = false;
      def =
          proposed (codes "checkov") (codes "IaC misconfiguration") (codes "Infrastructure")
            (codes "checkov") false (codes "checkov -d . --compact --quiet") (codes "exit")
            (codes "pipx install checkov");
      covered = tool_or_cmd (codes "checkov");
    }
    ∷ []

-- the proposals of one signal
abbrev pub when_found : Bool → List Proposal → List Proposal
when_found found ps = if found then ps else []

unfoldable pub proposals_for : Stack → List Proposal
proposals_for s =
    when_found s.go_mod go_proposals
    ++ (map node_proposal s.node
        ++ (when_found s.python python_proposals
            ++ (when_found s.php php_proposals
                ++ (when_found s.ruby ruby_proposals
                    ++ (when_found s.rust rust_proposals
                        ++ (when_found s.jvm jvm_proposals
                            ++ (universal_proposals
                                ++ (when_found s.docker docker_proposals
                                    ++ when_found s.terraform terraform_proposals))))))))
