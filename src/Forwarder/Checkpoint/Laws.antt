-- ===== src/Forwarder/Checkpoint/Laws.antt =====
-- cmd/log-forwarder/checkpoint.go: what a save that is cut short leaves behind, and the round trip.
use audit_logging.Common.{
  [], ◌∷◌, ◌++◌, ◌≡◌, ap, ◌≢◌, Option, none, some, ◌⊎◌, inl, inr, false, arith,
}
use audit_logging.Common.Int.{pos, ltb_ℤ}
use audit_logging.Text.{Text}
use audit_logging.Server.Model.{Error, ok, err, Result-cases}
use audit_logging.Forwarder.Checkpoint.{
  Checkpoint, Files, Codec, Calls, stamped, save_checkpoint, load_checkpoint, write_temp, publish,
}

-- The text that the file holds once a save has been carried through.
unfoldable pub IsNew : Codec → Calls → Checkpoint → Option Text → Type 0
IsNew c k cp o =
    (bytes : Text) × (c.marshal (stamped k cp) ≡ ok bytes) × (o ≡ some (bytes ++ (10 ∷ [])))

publish-ok :
    (k : Calls) (files : Files)
    → (publish k files).error ≡ none
    → (publish k files).files.current ≡ files.temp
unfolding publish
publish-ok k files h = ground arith

publish_kept :
    (k : Calls) (files : Files)
    → ((publish k files).files.current ≡ files.current)
      ⊎ ((publish k files).files.current ≡ files.temp)
unfolding publish
publish_kept k files = ground arith

write_temp-ok :
    (k : Calls) (bytes : Text) (files : Files)
    → (write_temp k bytes files).error ≡ none
    → (write_temp k bytes files).files.current ≡ some bytes
unfolding write_temp
write_temp-ok k bytes files h = ground (arith, publish-ok k (record files { temp = some bytes }))

write_temp_kept :
    (k : Calls) (bytes : Text) (files : Files)
    → ((write_temp k bytes files).files.current ≡ files.current)
      ⊎ ((write_temp k bytes files).files.current ≡ some bytes)
unfolding write_temp
write_temp_kept k bytes files = ground (arith, publish_kept k (record files { temp = some bytes }))

module _ (c : Codec) (k : Calls) (cp : Checkpoint) (files : Files) where
  save_ok :
      (bytes : Text)
      → c.marshal (stamped k cp) ≡ ok bytes
      → (save_checkpoint c k cp files).error ≡ none
      → (save_checkpoint c k cp files).files.current ≡ some (bytes ++ (10 ∷ []))
  unfolding save_checkpoint
  save_ok bytes g h = ground (arith, g, write_temp-ok k (bytes ++ (10 ∷ [])) files)

  save_kept :
      (bytes : Text)
      → c.marshal (stamped k cp) ≡ ok bytes
      → ((save_checkpoint c k cp files).files.current ≡ files.current)
        ⊎ ((save_checkpoint c k cp files).files.current ≡ some (bytes ++ (10 ∷ [])))
  unfolding save_checkpoint
  save_kept bytes g = ground (arith, g, write_temp_kept k (bytes ++ (10 ∷ [])) files)

  save_unmarshalled :
      (e : Error)
      → c.marshal (stamped k cp) ≡ err e
      → ((save_checkpoint c k cp files).files ≡ files)
        × ((save_checkpoint c k cp files).error ≢ none)
  unfolding save_checkpoint
  save_unmarshalled e g = ground (arith, g)

  -- Whatever call of the operating system fails, the checkpoint file is after SaveCheckpoint either
  -- what it was before or the whole of the new checkpoint, never a part of it; and it is the new one
  -- if SaveCheckpoint reports success.
  pub save_checkpoint_atomic :
      (((save_checkpoint c k cp files).files.current ≡ files.current)
        ⊎ IsNew c k cp (save_checkpoint c k cp files).files.current)
      × ((save_checkpoint c k cp files).error ≡ none
          → IsNew c k cp (save_checkpoint c k cp files).files.current)
  unfolding IsNew
  save_checkpoint_atomic = elim (Result-cases (c.marshal (stamped k cp))) [
    | inl (bytes, g) ↦ (
      elim (save_kept bytes g) [ inl h ↦ inl h | inr h ↦ inr (bytes, g, h) ],
      λ h. (bytes, g, save_ok bytes g h),
    )
    | inr (e, g) ↦
        let (h, l) = save_unmarshalled e g in
        (inl (ap (λ (x : Files). x.current) h), λ n. absurd (l n))
  ]

-- What LoadCheckpoint makes of an offset.
load-nonnegative :
    (c : Codec) (bytes : Text) (cp : Checkpoint) (files : Files)
    → files.current ≡ some bytes
    → c.decode bytes ≡ ok cp
    → ltb_ℤ cp.offset (pos 0) ≡ false
    → load_checkpoint c none files ≡ ok cp
unfolding load_checkpoint
load-nonnegative c bytes cp files g d h = ground (arith, g, d, h)

-- A checkpoint that has been saved, with an offset that is not negative, is what LoadCheckpoint
-- reads back, with the time of the save, if decoding a marshalled checkpoint and a line end gives
-- the checkpoint.
pub load-save :
    (c : Codec) (k : Calls) (cp : Checkpoint) (files : Files)
    (decode-marshal : (x : Checkpoint) (bytes : Text)
      → c.marshal x ≡ ok bytes
      → c.decode (bytes ++ (10 ∷ [])) ≡ ok x)
    (nonnegative : ltb_ℤ cp.offset (pos 0) ≡ false)
    (saved : (save_checkpoint c k cp files).error ≡ none)
    → load_checkpoint c none (save_checkpoint c k cp files).files ≡ ok (stamped k cp)
unfolding IsNew
load-save c k cp files decode-marshal nonnegative saved =
    let (bytes, g, h) = (save_checkpoint_atomic c k cp files).1 saved in
    load-nonnegative c (bytes ++ (10 ∷ [])) (stamped k cp) (save_checkpoint c k cp files).files h
      (decode-marshal (stamped k cp) bytes g) nonnegative
