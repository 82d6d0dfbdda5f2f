-- ===== src/Dashboard/Init/Detect/Laws.antt =====
-- cmd/security-dashboard/init.go: the walk of detectStack, against the names of the files it may look at.
use audit_logging.Common.{
  ◌≡◌, refl, sym, ap, subst, ◌∙◌, Bool-cases, inl, inr, arith, [], List, ◌∷◌, ◌++◌, Bool, true,
  false, ◌||◌, contains_func, contains_func-append, if◌then◌else◌,
}
use audit_logging.Text.{Text, codes, equal, has_prefix}
use audit_logging.Text.Equal.{equal_iff}
use audit_logging.Text.Order.{has_suffix}
use audit_logging.Dashboard.Init.Stack.{
  Node, file, dir, Entries, end, entry, Stack, Project, under, skip_dirs,
}
use audit_logging.Dashboard.Init.Detect.{
  Kind, go_file, node_file, python_file, php_file, ruby_file, rust_file, jvm_file, other_file,
  kind_of, Walked, act, go_module, node_project, visit_file, walk, walk_entries, detect_stack,
}

-- A name that is in a list.
abbrev pub is_named : List Text → Text → Bool
is_named names name = contains_func (λ n. equal name n) names

-- The directories that a project does not count as its own.
abbrev pub skipped_names : List Text
skipped_names =
    codes "node_modules"
    ∷ codes "vendor"
    ∷ codes "dist"
    ∷ codes "build"
    ∷ codes "out"
    ∷ codes "target"
    ∷ codes "coverage"
    ∷ codes "__pycache__"
    ∷ codes "venv"
    ∷ codes ".venv"
    ∷ codes "tmp"
    ∷ codes "testdata"
    ∷ []

skip_dirs-is_named : (name : Text) → skip_dirs name ≡ is_named skipped_names name
unfolding skip_dirs
skip_dirs-is_named name = ground arith

-- The names of the files that are neither in a skipped directory nor in a hidden one, below the root.
mutual
  pub visible : Node → List Text
  visible (file name) = name ∷ []
  visible (dir name es) =
      let inside = visible_entries es in
      if is_named skipped_names name || has_prefix name (codes ".") then [] else inside

  pub visible_entries : Entries → List Text
  visible_entries end = []
  visible_entries (entry n es) = visible n ++ visible_entries es

-- A flag of the stack that a visit sets by a test of the file's name, or leaves.
module _ (p : Project) (flag : Stack → Bool) (test : Text → Bool)
    (step : (d name : Text) (w : Walked)
      → flag (visit_file p d name w).stack ≡ (flag w.stack || test name)) where
  mutual
    unfolding walk visible

    walk_flag :
        (n : Node) (d : Text) (w : Walked)
        → flag (walk p n d w).stack ≡ (flag w.stack || contains_func test (visible n))
    walk_flag (file name) d w = step d name w ∙ (ground arith)
    walk_flag (dir name es) d w =
        rw (skip_dirs-is_named name) (ground (arith, walk_entries_flag es (under d name) w))

    walk_entries_flag :
        (es : Entries) (d : Text) (w : Walked)
        → flag (walk_entries p es d w).stack
          ≡ (flag w.stack || contains_func test (visible_entries es))
    walk_entries_flag end d w = ground arith
    walk_entries_flag (entry n es) d w = ground (
      arith,
      walk_entries_flag es d (walk p n d w),
      walk_flag n d w,
      contains_func-append test (visible n) (visible_entries es),
    )

abbrev pub same_kind : Kind → Kind → Bool
same_kind go_file go_file = true
same_kind node_file node_file = true
same_kind python_file python_file = true
same_kind php_file php_file = true
same_kind ruby_file ruby_file = true
same_kind rust_file rust_file = true
same_kind jvm_file jvm_file = true
same_kind other_file other_file = true
same_kind _ _ = false

-- A test that holds of a name holds of each equal one.
of_name : (P : Text → Type 0) (name n : Text) → equal name n ≡ true → P n → P name
of_name P name n e h = subst P (sym ((equal_iff name n).0 e)) h

abbrev pub go_names : List Text
go_names = codes "go.mod" ∷ []

kind_of_go : (name : Text) → same_kind go_file (kind_of name) ≡ is_named go_names name
unfolding kind_of equal
kind_of_go name = elim (Bool-cases (equal name (codes "go.mod"))) [
  | inl e0 ↦
      of_name (λ x. same_kind go_file (kind_of x) ≡ is_named go_names x) name (codes "go.mod") e0
        refl
  | inr e0 ↦ ground arith
]

abbrev pub python_names : List Text
python_names = codes "pyproject.toml" ∷ codes "requirements.txt" ∷ codes "Pipfile" ∷ []

kind_of_python : (name : Text) → same_kind python_file (kind_of name) ≡ is_named python_names name
unfolding kind_of equal
kind_of_python name = elim (Bool-cases (equal name (codes "pyproject.toml"))) [
  | inl e0 ↦
      of_name (λ x. same_kind python_file (kind_of x) ≡ is_named python_names x) name
        (codes "pyproject.toml") e0 refl
  | inr e0 ↦ elim (Bool-cases (equal name (codes "requirements.txt"))) [
    | inl e1 ↦
        of_name (λ x. same_kind python_file (kind_of x) ≡ is_named python_names x) name
          (codes "requirements.txt") e1 refl
    | inr e1 ↦ elim (Bool-cases (equal name (codes "Pipfile"))) [
      | inl e2 ↦
          of_name (λ x. same_kind python_file (kind_of x) ≡ is_named python_names x) name
            (codes "Pipfile") e2 refl
      | inr e2 ↦ ground arith
    ]
  ]
]

abbrev pub php_names : List Text
php_names = codes "composer.json" ∷ []

kind_of_php : (name : Text) → same_kind php_file (kind_of name) ≡ is_named php_names name
unfolding kind_of equal
kind_of_php name = elim (Bool-cases (equal name (codes "composer.json"))) [
  | inl e0 ↦
      of_name (λ x. same_kind php_file (kind_of x) ≡ is_named php_names x) name
        (codes "composer.json") e0 refl
  | inr e0 ↦ ground arith
]

abbrev pub ruby_names : List Text
ruby_names = codes "Gemfile" ∷ []

kind_of_ruby : (name : Text) → same_kind ruby_file (kind_of name) ≡ is_named ruby_names name
unfolding kind_of equal
kind_of_ruby name = elim (Bool-cases (equal name (codes "Gemfile"))) [
  | inl e0 ↦
      of_name (λ x. same_kind ruby_file (kind_of x) ≡ is_named ruby_names x) name (codes "Gemfile")
        e0 refl
  | inr e0 ↦ ground arith
]

abbrev pub rust_names : List Text
rust_names = codes "Cargo.toml" ∷ []

kind_of_rust : (name : Text) → same_kind rust_file (kind_of name) ≡ is_named rust_names name
unfolding kind_of equal
kind_of_rust name = elim (Bool-cases (equal name (codes "Cargo.toml"))) [
  | inl e0 ↦
      of_name (λ x. same_kind rust_file (kind_of x) ≡ is_named rust_names x) name
        (codes "Cargo.toml") e0 refl
  | inr e0 ↦ ground arith
]

abbrev pub jvm_names : List Text
jvm_names = codes "pom.xml" ∷ codes "build.gradle" ∷ codes "build.gradle.kts" ∷ []

kind_of_jvm : (name : Text) → same_kind jvm_file (kind_of name) ≡ is_named jvm_names name
unfolding kind_of equal
kind_of_jvm name = elim (Bool-cases (equal name (codes "pom.xml"))) [
  | inl e0 ↦
      of_name (λ x. same_kind jvm_file (kind_of x) ≡ is_named jvm_names x) name (codes "pom.xml") e0
        refl
  | inr e0 ↦ elim (Bool-cases (equal name (codes "build.gradle"))) [
    | inl e1 ↦
        of_name (λ x. same_kind jvm_file (kind_of x) ≡ is_named jvm_names x) name
          (codes "build.gradle") e1 refl
    | inr e1 ↦ elim (Bool-cases (equal name (codes "build.gradle.kts"))) [
      | inl e2 ↦
          of_name (λ x. same_kind jvm_file (kind_of x) ≡ is_named jvm_names x) name
            (codes "build.gradle.kts") e2 refl
      | inr e2 ↦ ground arith
    ]
  ]
]

module _ (p : Project) (d : Text) (w : Walked) where
  act-go_mod : (k : Kind) → (act p d k w).stack.go_mod ≡ (w.stack.go_mod || same_kind go_file k)
  unfolding act node_project go_module
  act-go_mod k = ground arith

  act-python : (k : Kind) → (act p d k w).stack.python ≡ (w.stack.python || same_kind python_file k)
  unfolding act node_project go_module
  act-python k = ground arith

  act-php : (k : Kind) → (act p d k w).stack.php ≡ (w.stack.php || same_kind php_file k)
  unfolding act node_project go_module
  act-php k = ground arith

  act-ruby : (k : Kind) → (act p d k w).stack.ruby ≡ (w.stack.ruby || same_kind ruby_file k)
  unfolding act node_project go_module
  act-ruby k = ground arith

  act-rust : (k : Kind) → (act p d k w).stack.rust ≡ (w.stack.rust || same_kind rust_file k)
  unfolding act node_project go_module
  act-rust k = ground arith

  act-jvm : (k : Kind) → (act p d k w).stack.jvm ≡ (w.stack.jvm || same_kind jvm_file k)
  unfolding act node_project go_module
  act-jvm k = ground arith

  act-docker : (k : Kind) → (act p d k w).stack.docker ≡ w.stack.docker
  unfolding act node_project go_module
  act-docker k = ground arith

  act-terraform : (k : Kind) → (act p d k w).stack.terraform ≡ w.stack.terraform
  unfolding act node_project go_module
  act-terraform k = ground arith

-- The flags of a stack are those that the names of the visible files call for.
pub record Reports (names : List Text) (s : Stack) : Type 0 where
  pub go_mod : s.go_mod ≡ contains_func (is_named go_names) names
  pub python : s.python ≡ contains_func (is_named python_names) names
  pub php : s.php ≡ contains_func (is_named php_names) names
  pub ruby : s.ruby ≡ contains_func (is_named ruby_names) names
  pub rust : s.rust ≡ contains_func (is_named rust_names) names
  pub jvm : s.jvm ≡ contains_func (is_named jvm_names) names
  pub docker : s.docker ≡ contains_func (λ name. has_prefix name (codes "Dockerfile")) names
  pub terraform : s.terraform ≡ contains_func (λ name. has_suffix name (codes ".tf")) names

-- Each flag of the stack that detectStack finds is set exactly when a file of such a name is visible, one
-- that lies in no directory of a skipped name and in no hidden one below the root: go.mod for Go;
-- pyproject.toml, requirements.txt or Pipfile for Python; composer.json for PHP; Gemfile for Ruby; Cargo.toml
-- for Rust; pom.xml, build.gradle or build.gradle.kts for the JVM; a name that begins with Dockerfile for
-- Docker; and one that ends in .tf for Terraform.
pub detect_stack-Reports : (p : Project) → Reports (visible_entries p.tree) (detect_stack p)
unfolding detect_stack visit_file
detect_stack-Reports p = record {
  go_mod =
      walk_entries_flag p (λ s. s.go_mod) _
        (λ d name w.
          act-go_mod p d w (kind_of name) ∙ ap (λ b. w.stack.go_mod || b) (kind_of_go name))
        p.tree [] _;
  python =
      walk_entries_flag p (λ s. s.python) _
        (λ d name w.
          act-python p d w (kind_of name) ∙ ap (λ b. w.stack.python || b) (kind_of_python name))
        p.tree [] _;
  php =
      walk_entries_flag p (λ s. s.php) _
        (λ d name w. act-php p d w (kind_of name) ∙ ap (λ b. w.stack.php || b) (kind_of_php name))
        p.tree [] _;
  ruby =
      walk_entries_flag p (λ s. s.ruby) _
        (λ d name w.
          act-ruby p d w (kind_of name) ∙ ap (λ b. w.stack.ruby || b) (kind_of_ruby name))
        p.tree [] _;
  rust =
      walk_entries_flag p (λ s. s.rust) _
        (λ d name w.
          act-rust p d w (kind_of name) ∙ ap (λ b. w.stack.rust || b) (kind_of_rust name))
        p.tree [] _;
  jvm =
      walk_entries_flag p (λ s. s.jvm) _
        (λ d name w. act-jvm p d w (kind_of name) ∙ ap (λ b. w.stack.jvm || b) (kind_of_jvm name))
        p.tree [] _;
  docker =
      walk_entries_flag p (λ s. s.docker) _ (λ d name w. rw (act-docker p d w (kind_of name)) refl)
        p.tree [] _;
  terraform =
      walk_entries_flag p (λ s. s.terraform) _
        (λ d name w. rw (act-terraform p d w (kind_of name)) refl) p.tree [] _;
}
