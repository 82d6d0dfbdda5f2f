-- ===== src/Dashboard/Runs/Laws.antt =====
-- cmd/security-dashboard/main.go: saveRun and loadRuns together.
use audit_logging.Common.{
  ℕ, ◌≡◌, refl, ap, sym, [], List, ◌∷◌, ◌++◌, Bool, true, false, All, Option, none, some,
  if◌then◌else◌,
}
use audit_logging.Text.{Text, is_empty, equal}
use audit_logging.Text.Order.{sort_slice}
use audit_logging.Text.Order.Sorted.{
  IsSorted, less-asym, less-weak, sort_slice-IsSorted, sort_slice-first,
}
use audit_logging.Server.Model.{Error, Result, ok, err, ok_injective}
use audit_logging.Dashboard.Runs.{
  Run, RunFile, RunCodec, SaveErrors, read_runs, taken, newer, load_runs, put_file, write_run,
  encoded_run, made_dir, save_run,
}

module _ (c : RunCodec) where
  pub load_runs-IsSorted : (files : List RunFile) → IsSorted newer (load_runs c files)
  unfolding load_runs newer
  load_runs-IsSorted files =
      sort_slice-IsSorted newer (λ a b h. less-asym b.id a.id h)
        (λ a b d h k. less-weak d.id b.id a.id k h) (read_runs c files)

  -- The runs of a directory into which one was put, among which it stands between older ones.
  pub record Among (run : Run) (runs : List Run) : Type 0 where
    pub pre : List Run
    pub post : List Run
    pub whole : runs ≡ pre ++ (run ∷ post)
    pub older_pre : All (λ r. newer run r ≡ true) pre
    pub older_post : All (λ r. newer run r ≡ true) post

  behind_taken :
      (run : Run) (o : Option Run) (runs new : List Run)
      → All (λ r. newer run r ≡ true) (taken c o runs)
      → (All (λ r. newer run r ≡ true) runs → Among run new)
      → Among run (taken c o new)
  unfolding taken
  behind_taken run none runs new h k = k h
  behind_taken run (some r) runs new h k = go (is_empty r.id) h
    where
      go :
          (b : Bool)
          → All (λ r. newer run r ≡ true) (if b then runs else r ∷ runs)
          → Among run (if b then new else r ∷ new)
      go true h = k h
      go false (e, h) =
          let a = k h in
          record {
            pre = r ∷ a.pre;
            post = a.post;
            whole = ap (◌∷◌ r) a.whole;
            older_pre = (e, a.older_pre);
            older_post = a.older_post;
          }

  runs_behind :
      (run : Run) (o : Option Run) (runs : List Run)
      → All (λ r. newer run r ≡ true) (taken c o runs)
      → All (λ r. newer run r ≡ true) runs
  unfolding taken
  runs_behind run none runs h = h
  runs_behind run (some r) runs h = go (is_empty r.id) h
    where
      go :
          (b : Bool)
          → All (λ r. newer run r ≡ true) (if b then runs else r ∷ runs)
          → All (λ r. newer run r ≡ true) runs
      go true h = h
      go false (e, h) = h

  put_file-Among :
      (run : Run) (name text : Text) (files : List RunFile)
      → c.decode text ≡ some run
      → is_empty run.id ≡ false
      → All (λ r. newer run r ≡ true) (read_runs c files)
      → Among run (read_runs c (put_file name text files))
  unfolding put_file read_runs taken
  put_file-Among run name text [] d e h =
      rw (d, taken)
        (rw e (record { pre = []; post = []; whole = refl; older_pre = tt; older_post = tt }))
  put_file-Among run name text (f ∷ fs) d e h =
      go (equal f.name name) (put_file-Among run name text fs d e)
    where
      go :
          (b : Bool)
          → (All (λ r. newer run r ≡ true) (read_runs c fs)
              → Among run (read_runs c (put_file name text fs)))
          → Among run (
              read_runs c
                (if b then record f { text = some text } ∷ fs else f ∷ put_file name text fs))
      go true ih =
          rw (d, taken)
            (rw e (record {
              pre = [];
              post = read_runs c fs;
              whole = refl;
              older_pre = tt;
              older_post = runs_behind run _ (read_runs c fs) h;
            }))
      go false ih = behind_taken run _ (read_runs c fs) _ h ih

  write_run-latest :
      (run : Run) (name text : Text) (e : Option (Error × Option ℕ)) (files files' : List RunFile)
      → write_run name text e files ≡ (none, files')
      → files' ≡ put_file name text files
  unfolding write_run
  write_run-latest run name text none files files' h = sym (ap (λ x. x.1) h)
  write_run-latest run name text (some (e, none)) files files' h = absurd cc
  write_run-latest run name text (some (e, some n)) files files' h = absurd cc

  encoded_run_text :
      (run : Run) {text : Text} (k : SaveErrors) (files files' : List RunFile) (r : Result Text)
      → r ≡ ok text
      → encoded_run run r k files ≡ (none, files')
      → files' ≡ put_file run.id (text ++ (10 ∷ [])) files
  unfolding encoded_run
  encoded_run_text run k files files' (err x) e h = absurd cc
  encoded_run_text run {text} k files files' (ok t) e h =
      write_run-latest run run.id (text ++ (10 ∷ [])) k.write files files'
        (rw (ok_injective e) at h)

  made_dir_text :
      (run : Run) {text : Text} (k : SaveErrors) (files files' : List RunFile) (m : Option Error)
      → c.encode run ≡ ok text
      → made_dir c run k m files ≡ (none, files')
      → files' ≡ put_file run.id (text ++ (10 ∷ [])) files
  unfolding made_dir
  made_dir_text run k files files' none enc h =
      encoded_run_text run k files files' (c.encode run) enc h
  made_dir_text run k files files' (some x) enc h = absurd cc

  -- A run that is saved without an error, whose text decodes to it, that has an id, and that is newer than
  -- every run recorded before, is the first of the runs that are loaded next, the latest on the page.
  pub load_runs-save_run :
      (run : Run) {text : Text} (k : SaveErrors) (files files' : List RunFile)
      → c.encode run ≡ ok text
      → c.decode (text ++ (10 ∷ [])) ≡ some run
      → is_empty run.id ≡ false
      → All (λ r. newer run r ≡ true) (read_runs c files)
      → save_run c run k files ≡ (none, files')
      → (rest : List Run) × (load_runs c files' ≡ run ∷ rest)
  unfolding load_runs newer save_run
  load_runs-save_run run {text} k files files' enc d e h saved =
      let same : files' ≡ put_file run.id (text ++ (10 ∷ [])) files =
        made_dir_text run k files files' k.mkdir enc saved in
      let a = put_file-Among run run.id _ files d e h in
      (
        sort_slice newer (a.pre ++ a.post),
        rw (same, a.whole)
            (sort_slice-first newer (λ x y q. less-asym y.id x.id q)
              (λ x y z p q. less-weak z.id y.id x.id q p) a.pre a.post run a.older_pre
              a.older_post),
      )
