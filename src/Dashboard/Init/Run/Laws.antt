-- ===== src/Dashboard/Init/Run/Laws.antt =====
-- cmd/security-dashboard/init.go: what a run of `init` leaves of the two files.
use audit_logging.Common.{◌≡◌, ◌≤◌, refl, arith, List, Bool, true, false, ◌||◌, Option, none, some}
use audit_logging.Text.{Text, codes, equal}
use audit_logging.Text.Space.{trim_space}
use audit_logging.Server.Model.{Result, ok, err}
use audit_logging.Dashboard.Config.{Config}
use audit_logging.Dashboard.Init.Proposal.{Proposal}
use audit_logging.Dashboard.Init.Proposals.{proposals_for}
use audit_logging.Dashboard.Init.Merge.{additions, merged_checks}
use audit_logging.Dashboard.Init.Raw.{Raw, find_member, listed, keys_of}
use audit_logging.Dashboard.Init.Raw.Laws.{count}
use audit_logging.Dashboard.Init.World.{InitOpts, World, Files}
use audit_logging.Dashboard.Init.Load.Laws.{own_keys}
use audit_logging.Dashboard.Init.Raw.Members.{object_text}
use audit_logging.Dashboard.Init.Run.{stack, dry_end, merge, audited, begun, run_init}

module _ (w : World) (opts : InitOpts) where
  merge_dry :
      (existing : Config) (add : List Proposal) (said : List Text) (files : Files)
      (raw : Option Raw)
      → opts.dry_run ≡ true
      → (merge w opts existing add said files raw).files ≡ files
  unfolding merge dry_end
  merge_dry existing add said files none h = refl
  merge_dry existing add said files (some raw) h = ground arith

  audited_untouched :
      (b : Bool) (existing : Config) (add : List Proposal) (said : List Text) (files : Files)
      (raw : Option Raw)
      → (b || opts.dry_run) ≡ true
      → (audited w opts b existing add said files raw).files ≡ files
  unfolding audited
  audited_untouched true existing add said files raw h = refl
  audited_untouched false existing add said files raw h = merge_dry existing add said files raw h

  begun_untouched :
      (said : List Text) (files : Files) (r : Result (Option Raw × Config))
      → (opts.check || opts.dry_run) ≡ true
      → (begun w opts said files r).files ≡ files
  unfolding begun
  begun_untouched said files (err e) h = refl
  begun_untouched said files (ok (raw, existing)) h =
      audited_untouched opts.check existing _ _ files raw h

  -- With --check or --dry-run, `init` leaves config.json and tasks.json as they are, however it ends.
  pub run_init_untouched :
      (files : Files) → (opts.check || opts.dry_run) ≡ true → (run_init w opts files).files ≡ files
  unfolding run_init
  run_init_untouched files h = begun_untouched _ files _ h

-- What a run that wrote leaves of the members it began with. The text of config.json is that of an object
-- with these members: each of the config but those that `init` keeps up, with the text that it had; no other but
-- those and `standards`; the merged checks, as the encoder gives them, as `checks`; and no key twice. A
-- tasks.json that was there is as it was.
pub record Wrote (w : World) (opts : InitOpts) (raw : Raw) (existing : Config) (before out : Files)
    : Type 0 where
  pub members : Raw
  pub text : out.config ≡ some (object_text w.codec.printer members)
  pub kept :
      (k v : Text)
      → listed k own_keys ≡ false
      → find_member k raw ≡ some v
      → find_member k members ≡ some v
  pub no_more :
      (k : Text)
      → listed k own_keys ≡ false
      → equal k (codes "standards") ≡ false
      → find_member k members ≡ find_member k raw
  pub checks :
      (s : Text)
      → w.codec.checks
          (merged_checks existing.checks (additions (proposals_for (stack w)) existing.checks))
        ≡ some s
      → find_member (codes "checks") members ≡ some (trim_space s)
  pub once : (k : Text) → count k (keys_of members) ≤ 1
  pub tasks : (t : Text) → before.tasks ≡ some t → out.tasks ≡ some t
