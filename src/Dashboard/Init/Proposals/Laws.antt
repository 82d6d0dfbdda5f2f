-- ===== src/Dashboard/Init/Proposals/Laws.antt =====
-- cmd/security-dashboard/init.go: what the proposals have in common.
use audit_logging.Common.{◌≡◌, refl, [], List, ◌∷◌, map, Bool, true, false, All, All-append}
use audit_logging.Text.{Text, equal, contains}
use audit_logging.Text.Equal.{equal_refl}
use audit_logging.Dashboard.Init.Stack.{NodeProject, Stack}
use audit_logging.Dashboard.Init.Proposal.{Proposal, node_proposal, cmd_has, parser_is, tool_or_cmd}
use audit_logging.Dashboard.Init.Proposals.{
  go_proposals, python_proposals, php_proposals, ruby_proposals, rust_proposals, jvm_proposals,
  universal_proposals, docker_proposals, terraform_proposals, when_found, proposals_for,
}

-- A proposal that the check it proposes covers, whatever is noted as that check's source.
abbrev pub IsSettled : Proposal → Type 0
IsSettled p = (source : Text) → p.covered (record p.def { source = source }) ≡ true

go_proposals-IsSettled : All IsSettled go_proposals
unfolding go_proposals cmd_has parser_is tool_or_cmd equal contains
go_proposals-IsSettled = (λ s. refl, (λ s. refl, (λ s. refl, (λ s. refl, (λ s. refl, tt)))))

python_proposals-IsSettled : All IsSettled python_proposals
unfolding python_proposals tool_or_cmd equal
python_proposals-IsSettled = (λ s. refl, (λ s. refl, tt))

php_proposals-IsSettled : All IsSettled php_proposals
unfolding php_proposals tool_or_cmd equal
php_proposals-IsSettled = (λ s. refl, tt)

ruby_proposals-IsSettled : All IsSettled ruby_proposals
unfolding ruby_proposals tool_or_cmd equal
ruby_proposals-IsSettled = (λ s. refl, tt)

rust_proposals-IsSettled : All IsSettled rust_proposals
unfolding rust_proposals cmd_has contains
rust_proposals-IsSettled = (λ s. refl, tt)

jvm_proposals-IsSettled : All IsSettled jvm_proposals
unfolding jvm_proposals tool_or_cmd equal
jvm_proposals-IsSettled = (λ s. refl, tt)

universal_proposals-IsSettled : All IsSettled universal_proposals
unfolding universal_proposals parser_is tool_or_cmd equal
universal_proposals-IsSettled = (λ s. refl, (λ s. refl, (λ s. refl, tt)))

docker_proposals-IsSettled : All IsSettled docker_proposals
unfolding docker_proposals tool_or_cmd equal
docker_proposals-IsSettled = (λ s. refl, tt)

terraform_proposals-IsSettled : All IsSettled terraform_proposals
unfolding terraform_proposals tool_or_cmd equal
terraform_proposals-IsSettled = (λ s. refl, tt)

node_proposals-IsSettled : (ns : List NodeProject) → All IsSettled (map node_proposal ns)
unfolding node_proposal equal
node_proposals-IsSettled [] = tt
node_proposals-IsSettled (n ∷ ns) = (λ s. rw (equal_refl n.dir) refl, node_proposals-IsSettled ns)

when_found-IsSettled :
    (found : Bool) (ps : List Proposal) → All IsSettled ps → All IsSettled (when_found found ps)
when_found-IsSettled true ps h = h
when_found-IsSettled false ps h = tt

pub proposals_for-IsSettled : (s : Stack) → All IsSettled (proposals_for s)
unfolding proposals_for
proposals_for-IsSettled s =
    let join = All-append IsSettled in
    join _ _ (when_found-IsSettled s.go_mod _ go_proposals-IsSettled) (
      join _ _ (node_proposals-IsSettled s.node) (
        join _ _ (when_found-IsSettled s.python _ python_proposals-IsSettled) (
          join _ _ (when_found-IsSettled s.php _ php_proposals-IsSettled) (
            join _ _ (when_found-IsSettled s.ruby _ ruby_proposals-IsSettled) (
              join _ _ (when_found-IsSettled s.rust _ rust_proposals-IsSettled) (
                join _ _ (when_found-IsSettled s.jvm _ jvm_proposals-IsSettled) (
                  join _ _ universal_proposals-IsSettled (
                    join _ _ (when_found-IsSettled s.docker _ docker_proposals-IsSettled)
                      (when_found-IsSettled s.terraform _ terraform_proposals-IsSettled)))))))))
