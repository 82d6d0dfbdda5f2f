-- ===== src/Dashboard/Init/Load/Start.antt =====
-- cmd/security-dashboard/init.go: what a run of `init` starts from.
use audit_logging.Common.{
  ◌≡◌, refl, sym, ap, [], ◌⊎◌, inl, inr, Bool-cases, true, false, Option, none, some,
}
use audit_logging.Text.{Text}
use audit_logging.Server.Model.{Error, Result, ok, err, ok_injective}
use audit_logging.Dashboard.Config.{Config, no_config}
use audit_logging.Dashboard.Init.Raw.{Raw}
use audit_logging.Dashboard.Init.World.{InitOpts, World, Files}
use audit_logging.Dashboard.Init.Load.{readable, both, load}

-- The members and the value of the config that a run starts from: those that the text of config.json
-- decodes to; or none, with --force; or none where there is no text and not --check.
pub data Starts (w : World) (opts : InitOpts) (files : Files) (raw : Option Raw) (existing : Config)
    : Type 0 where
  decoded :
      (text : Text)
      → files.config ≡ some text
      → w.read_error ≡ none
      → opts.force ≡ false
      → w.codec.decode_raw text ≡ ok raw
      → w.codec.decode_config text ≡ ok existing
      → Starts w opts files raw existing
  forced :
      (text : Text)
      → files.config ≡ some text
      → w.read_error ≡ none
      → opts.force ≡ true
      → raw ≡ some []
      → existing ≡ no_config
      → Starts w opts files raw existing
  fresh :
      (files.config ≡ none) ⊎ ((e : Error) × (w.read_error ≡ some e))
      → opts.check ≡ false
      → raw ≡ some []
      → existing ≡ no_config
      → Starts w opts files raw existing

module _ (w : World) (opts : InitOpts) (raw : Option Raw) (existing : Config) where
  both-ok :
      (r : Result (Option Raw)) (c : Result Config)
      → both w opts r c ≡ ok (raw, existing)
      → (r ≡ ok raw) × (c ≡ ok existing)
  unfolding both
  both-ok (err e) c h = absurd cc
  both-ok (ok x) (err e) h = absurd cc
  both-ok (ok x) (ok c) h =
      (ap (λ p. ok (p.0)) (ok_injective h), ap (λ p. ok (p.1)) (ok_injective h))

  without_text :
      load w opts none ≡ ok (raw, existing)
      → (opts.check ≡ false) × (raw ≡ some []) × (existing ≡ no_config)
  unfolding load
  without_text h = elim (Bool-cases opts.check) [
    | inl g ↦ absurd (let z = rw g at (h) in cc)
    | inr g ↦ let z = sym (ok_injective (rw g at (h))) in (g, ap (λ p. p.0) z, ap (λ p. p.1) z)
  ]

  with_text :
      (text : Text) (files : Files)
      → files.config ≡ some text
      → w.read_error ≡ none
      → load w opts (some text) ≡ ok (raw, existing)
      → Starts w opts files raw existing
  unfolding load
  with_text text files f e h = elim (Bool-cases opts.force) [
    | inl g ↦
        let z = sym (ok_injective (rw g at (h))) in
        forced text f e g (ap (λ p. p.0) z) (ap (λ p. p.1) z)
    | inr g ↦
        let (r, c) = both-ok (w.codec.decode_raw text) (w.codec.decode_config text) (rw g at (h)) in
        decoded text f e g r c
  ]

  load_read :
      (files : Files) (content : Option Text) (e : Option Error)
      → files.config ≡ content
      → w.read_error ≡ e
      → load w opts (readable content e) ≡ ok (raw, existing)
      → Starts w opts files raw existing
  load_read files none e f g h = let (c, r, x) = without_text h in fresh (inl f) c r x
  load_read files (some text) (some e) f g h =
      let (c, r, x) = without_text h in fresh (inr (e, g)) c r x
  load_read files (some text) none f g h = with_text text files f g h

  pub load-Starts :
      (files : Files)
      → load w opts (readable files.config w.read_error) ≡ ok (raw, existing)
      → Starts w opts files raw existing
  load-Starts files h = load_read files files.config w.read_error refl refl h

  fresh_load :
      (content : Option Text) (e : Option Error)
      → (content ≡ none) ⊎ ((x : Error) × (e ≡ some x))
      → readable content e ≡ none
  fresh_load none e h = refl
  fresh_load (some text) (some e) h = refl
  fresh_load (some text) none (inl h) = absurd cc
  fresh_load (some text) none (inr (x, h)) = absurd cc

  pub Starts-load :
      (files : Files)
      → Starts w opts files raw existing
      → load w opts (readable files.config w.read_error) ≡ ok (raw, existing)
  unfolding load both
  Starts-load files (decoded text f e g r c) =
      rw (f, e) (rw (g, load) (rw (r, both) (rw (c, both) refl)))
  Starts-load files (forced text f e g r x) = rw (f, e) (rw (g, load) (rw (r, x) refl))
  Starts-load files (fresh o c r x) =
      rw (fresh_load files.config w.read_error o, load) (rw (c, r, x) refl)
