-- ===== src/Dashboard/Init/Detect.antt =====
-- cmd/security-dashboard/init.go: detectStack, the walk over the project and what follows it.
pub mod Laws
use audit_logging.Common.{
  [], List, ◌∷◌, ◌++◌, Bool, true, false, ◌&&◌, ◌||◌, Option, none, some, if◌then◌else◌,
}
use audit_logging.Text.{Text, codes, is_empty, equal, has_prefix}
use audit_logging.Text.Space.{trim_space}
use audit_logging.Text.Order.{less, sort_slice, has_suffix}
use audit_logging.Dashboard.Words.{git_out}
use audit_logging.Dashboard.Render.{has_text}
use audit_logging.Dashboard.Init.Stack.{
  Node, file, dir, Entries, end, entry, NodeProject, Stack, Project, under, skip_dirs, module_name,
  package_manager, json_field,
}

-- stack{}
abbrev pub no_stack : Stack
no_stack = record {
  go_mod = false;
  node = [];
  python = false;
  php = false;
  ruby = false;
  rust = false;
  jvm = false;
  docker = false;
  terraform = false;
  manual_doc = [];
  app_name = [];
  repo = [];
}

-- The stack and the directories of the Node projects that were seen.
pub record Walked : Type 0 where
  pub stack : Stack
  pub seen : List Text

abbrev pub is_python : Text → Bool
is_python name =
    equal name (codes "pyproject.toml")
    || equal name (codes "requirements.txt")
    || equal name (codes "Pipfile")

abbrev pub is_jvm : Text → Bool
is_jvm name =
    equal name (codes "pom.xml")
    || equal name (codes "build.gradle")
    || equal name (codes "build.gradle.kts")

-- The cases of the switch on a file's name.
pub data Kind : Type 0 where
  go_file node_file python_file php_file ruby_file rust_file jvm_file other_file : Kind

unfoldable pub kind_of : Text → Kind
kind_of name =
    if equal name (codes "go.mod")
    then go_file
    else if equal name (codes "package.json")
    then node_file
    else if is_python name
    then python_file
    else if equal name (codes "composer.json")
    then php_file
    else if equal name (codes "Gemfile")
    then ruby_file
    else if equal name (codes "Cargo.toml")
    then rust_file
    else if is_jvm name
    then jvm_file
    else other_file

module _ (p : Project) where
  -- case "go.mod"
  unfoldable pub go_module : Text → Stack → Stack
  go_module d s = record s {
    go_mod = true;
    app_name =
        if is_empty d && is_empty s.app_name
        then module_name p (under d (codes "go.mod"))
        else s.app_name;
  }

  -- case "package.json"
  unfoldable pub node_project : Text → Walked → Walked
  node_project d w = if has_text d w.seen then w else record {
    stack = record w.stack {
      node = w.stack.node ++ (record { dir = d; pm = package_manager p d } ∷ []);
    };
    seen = d ∷ w.seen;
  }

  -- the cases of the switch
  unfoldable pub act : Text → Kind → Walked → Walked
  act d go_file w = record w { stack = go_module d w.stack }
  act d node_file w = node_project d w
  act d python_file w = record w { stack = record w.stack { python = true } }
  act d php_file w = record w { stack = record w.stack { php = true } }
  act d ruby_file w = record w { stack = record w.stack { ruby = true } }
  act d rust_file w = record w { stack = record w.stack { rust = true } }
  act d jvm_file w = record w { stack = record w.stack { jvm = true } }
  act d other_file w = w

  -- the walk's function on a file
  unfoldable pub visit_file : Text → Text → Walked → Walked
  visit_file d name w =
      let v = act d (kind_of name) w in
      record v {
        stack = record v.stack {
          docker = v.stack.docker || has_prefix name (codes "Dockerfile");
          terraform = v.stack.terraform || has_suffix name (codes ".tf");
        };
      }

  -- the walk, below a directory with the given path from the root
  unfoldable mutual
    pub walk : Node → Text → Walked → Walked
    walk (file name) d w = visit_file d name w
    walk (dir name es) d w =
        let inside = walk_entries es (under d name) w in
        if skip_dirs name || has_prefix name (codes ".") then w else inside

    pub walk_entries : Entries → Text → Walked → Walked
    walk_entries end d w = w
    walk_entries (entry n es) d w = walk_entries es d (walk n d w)

  -- the first manual that is there
  unfoldable pub find_manual : Text
  find_manual =
      if p.stat (codes "docs/security-testing-manual.md")
      then codes "docs/security-testing-manual.md"
      else if p.stat (codes "docs/security.md")
      then codes "docs/security.md"
      else if p.stat (codes "SECURITY.md")
      then codes "SECURITY.md"
      else []

  -- the name in the package.json of the root
  name_in_package : List NodeProject → Text → Text
  name_in_package [] name = name
  name_in_package (n ∷ ns) name =
      name_in_package ns
        (if is_empty n.dir then json_field p (codes "package.json") (codes "name") else name)

  abbrev or_base : Text → Option Text → Text
  or_base name none = name
  or_base name (some b) = if is_empty name then b else name

  unfoldable pub app_name_of : List NodeProject → Text → Text
  unfolding name_in_package
  app_name_of ns name = or_base (if is_empty name then name_in_package ns name else name) p.base

  unfoldable pub detect_stack : Stack
  unfolding app_name_of
  detect_stack =
      let s = (walk_entries p.tree [] (record { stack = no_stack; seen = [] })).stack in
      let node = sort_slice (λ a b. less a.dir b.dir) s.node in
      record s {
        node = node;
        manual_doc = find_manual;
        app_name = app_name_of node s.app_name;
        repo = trim_space (git_out p.remote);
      }
