-- ===== src/Dashboard/Init/Run.antt =====
-- cmd/security-dashboard/init.go: runInit, over the texts of config.json and tasks.json.
pub mod Laws
pub mod Check
use audit_logging.Common.{
  ℕ, zero, suc, ◌-◌, [], List, ◌∷◌, ◌++◌, map, Bool, true, false, not, ◌&&◌, Option, none, some,
  take, length, ltb, if◌then◌else◌,
}
use audit_logging.Text.{Text, codes}
use audit_logging.Text.Decimal.{format_uint}
use audit_logging.Server.Model.{Error, Result, ok, err}
use audit_logging.Dashboard.Checks.{CheckDef}
use audit_logging.Dashboard.Config.{Config, ComplianceDoc}
use audit_logging.Dashboard.Init.Stack.{Stack, detect_compliance_docs}
use audit_logging.Dashboard.Init.Detect.{detect_stack}
use audit_logging.Dashboard.Init.Proposal.{Proposal}
use audit_logging.Dashboard.Init.Proposals.{proposals_for}
use audit_logging.Dashboard.Init.Merge.{additions, merged_checks}
use audit_logging.Dashboard.Init.Audit.{Report, audit_config, print_findings, report_check}
use audit_logging.Dashboard.Init.Raw.{Raw, ordered_json, config_key_order}
use audit_logging.Dashboard.Init.World.{
  InitOpts, World, Files, Ended, returned, exited, panicked, Outcome,
}
use audit_logging.Dashboard.Init.Load.{readable, load, load_lines, final_raw}
use audit_logging.Dashboard.Init.Seeds.{stack_summary, baseline_tasks}

abbrev must : Result Text → Text
must (err e) = codes "."
must (ok s) = s

spaces : ℕ → Text
spaces zero = []
spaces (suc n) = 32 ∷ spaces n

-- "%-24s"
abbrev padded : Text → Text
padded s = s ++ spaces (24 - length s)

add_line : Proposal → Text
add_line p = codes "  + " ++ (padded p.def.key ++ (codes " " ++ p.signal))

pub merge_lines : List CheckDef → List Proposal → List Text
merge_lines existing [] =
    (codes "config.json: no new checks — "
      ++ (format_uint (length existing) ++ codes " already cover this stack"))
    ∷ []
merge_lines existing (p ∷ ps) =
    (codes "config.json: +"
      ++ (format_uint (suc (length ps))
          ++ (codes " check(s), " ++ (format_uint (length existing) ++ codes " preserved"))))
    ∷ map add_line (p ∷ ps)

-- os.WriteFile
unfoldable pub write_file :
    Option Text → Option (Error × Option ℕ) → Text → Option Error × Option Text
write_file old none text = (none, some text)
write_file old (some (e, none)) text = (some e, old)
write_file old (some (e, some n)) text = (some e, some (take n text))

abbrev pub is_none : Option Text → Bool
is_none none = true
is_none (some s) = false

abbrev ended_as : Ended → List Text → Files → Outcome
ended_as e said files = record { ended = e; said = said; files = files }

pub tasks_count : Text
tasks_count = format_uint (length baseline_tasks) ++ codes " baseline manual tasks"

module _ (w : World) where
  abbrev pub stack : Stack
  stack = detect_stack w.project

  abbrev pub docs : List ComplianceDoc
  docs = detect_compliance_docs w.project

  -- the end of a run that wrote
  unfoldable pub finish : Config → List CheckDef → List Text → Files → Outcome
  finish existing checks said files =
      let merged : Config = record existing { checks = checks; compliance_docs = docs } in
      ended_as (returned none)
        (said
          ++ (print_findings (audit_config w.machine merged [] docs)
              ++ ([] ∷ codes "next: go run ./cmd/security-dashboard scan" ∷ [])))
        files

  -- after tasks.json was written
  unfoldable pub tasks_written :
      Config → List CheckDef → List Text → Files → Option Error × Option Text → Outcome
  tasks_written existing checks said files (some e, text) =
      ended_as (returned (some e)) said (record files { tasks = text })
  tasks_written existing checks said files (none, text) =
      finish existing checks
        (said
          ++ ((codes "wrote " ++ (w.tasks_path ++ (codes " (" ++ (tasks_count ++ codes ")"))))
              ∷ []))
        (record files { tasks = text })

  unfoldable pub encoded_tasks : Config → List CheckDef → List Text → Files → Result Text → Outcome
  unfolding tasks_written
  encoded_tasks existing checks said files (err e) = ended_as (returned (some e)) said files
  encoded_tasks existing checks said files (ok text) =
      tasks_written existing checks said files
        (write_file files.tasks w.tasks_error (text ++ (10 ∷ [])))

  -- if writeTasks
  unfoldable pub seed_tasks : Config → List CheckDef → List Text → Files → Bool → Outcome
  unfolding encoded_tasks
  seed_tasks existing checks said files true =
      encoded_tasks existing checks said files (w.codec.tasks baseline_tasks)
  seed_tasks existing checks said files false = finish existing checks said files

  -- after writeOrderedJSON
  unfoldable pub config_written :
      Config → List CheckDef → List Text → Files → Bool → Option Error × Option Text → Outcome
  unfolding seed_tasks
  config_written existing checks said files write_tasks (some e, text) =
      ended_as (returned (some e)) said (record files { config = text })
  config_written existing checks said files write_tasks (none, text) =
      seed_tasks existing checks (said ++ ((codes "wrote " ++ w.config_path) ∷ []))
        (record files { config = text }) write_tasks

  -- os.MkdirAll, and what follows it
  unfoldable pub make_dir :
      Config → List CheckDef → Raw → List Text → Files → Bool → Option Error → Outcome
  unfolding config_written
  make_dir existing checks final said files write_tasks (some e) =
      ended_as (returned (some e)) said files
  make_dir existing checks final said files write_tasks none =
      config_written existing checks said files write_tasks (
        write_file files.config w.config_error
          (ordered_json w.codec.printer final config_key_order))

  -- the end of a dry run
  unfoldable pub dry_end : Config → List Proposal → List Text → Files → Bool → Outcome
  dry_end existing add said files write_tasks =
      ended_as (returned none)
        (said
          ++ ([]
              ∷ codes "--dry-run: nothing written"
              ∷ ((if write_tasks
                    then (codes "would create "
                        ++ (w.tasks_path ++ (codes " with " ++ tasks_count)))
                      ∷ []
                    else [])
                  ++ print_findings (audit_config w.machine existing add docs))))
        files

module _ (w : World) (opts : InitOpts) where
  -- what follows the merge
  unfoldable pub merge : Config → List Proposal → List Text → Files → Option Raw → Outcome
  merge existing add said files none = ended_as panicked said files
  merge existing add said files (some raw) =
      let checks = merged_checks existing.checks add in
      let final = final_raw w.codec existing (stack w) (docs w) checks raw in
      let said' = said ++ ([] ∷ merge_lines existing.checks add) in
      let write_tasks = is_none files.tasks && not w.stat_fails in
      if opts.dry_run
      then dry_end w existing add said' files write_tasks
      else make_dir w existing checks final said' files write_tasks w.mkdir_error

  -- reportCheck, which leaves the process on drift
  abbrev pub checked : Report → List Text → Files → Outcome
  checked r said files =
      ended_as (if ltb 0 r.exit then exited r.exit else returned none) (said ++ r.said) files

  -- if opts.check
  unfoldable pub audited : Bool → Config → List Proposal → List Text → Files → Option Raw → Outcome
  audited true existing add said files raw =
      checked (report_check (audit_config w.machine existing add (docs w))) said files
  audited false existing add said files raw = merge existing add said files raw

  -- what follows the reading of config.json
  unfoldable pub begun : List Text → Files → Result (Option Raw × Config) → Outcome
  begun said files (err e) = ended_as (returned (some e)) said files
  begun said files (ok (raw, existing)) =
      let said' =
        said
        ++ ((codes "security-dashboard init: scanned " ++ must w.abs_root)
            ∷ map (λ s. codes "  · " ++ s) (stack_summary (stack w))) in
      audited opts.check existing (additions (proposals_for (stack w)) existing.checks) said' files
        raw

  unfoldable pub run_init : Files → Outcome
  run_init files =
      let text = readable files.config w.read_error in
      begun (load_lines w opts text) files (load w opts text)
