-- ===== src/Server/PostgresStore/Laws.antt =====
-- What Verify of the Postgres store decides: that the rows are a chain.
use audit_logging.Common.{
  ℕ, List, [], ◌∷◌, ◌≡◌, ◌↔◌, refl, sym, ap, ◌∙◌, true, false, Option, none, some, arith,
  Option-cases, Bool-cases, inl, inr, map, All,
}
use audit_logging.Common.Int.{pos, leb_ℤ}
use audit_logging.Text.{Text}
use audit_logging.Server.Model.{
  Error, ok, Stream, more, next_uint64, VerifyResult, Reason, index_broken, ok_injective,
}
use audit_logging.Server.Codec.{Codec}
use audit_logging.Server.Chain.{
  genesis, link_fault, link_fault-none, link_fault-IsLink, IsChain, head_hash, count_from, intact,
  invalid,
}
use audit_logging.Server.PostgresStore.{EntryRow, by_index, link_of, verify_rows, stream_of, verify}

-- Every index is at least one.
abbrev pub Positive : List EntryRow → Type 0
Positive t = All (λ r. leb_ℤ r.entry_index (pos 0) ≡ false) t

module _ (c : Codec) where
  verify_rows_complete :
      (n : ℕ) (h : Text) (total : ℕ) (t : List EntryRow)
      → Positive t
      → IsChain c n h (map (link_of c) t)
      → verify_rows c n h total (stream_of c none t)
        ≡ ok (intact (count_from total (map (link_of c) t)) (head_hash h (map (link_of c) t)))
  unfolding verify_rows stream_of
  verify_rows_complete n h total [] p k = refl
  verify_rows_complete n h total (r ∷ t) (a, p) (i, k) =
      rw (a, verify_rows)
        (rw (link_fault-IsLink c n h (link_of c r) i, verify_rows)
          (verify_rows_complete (next_uint64 n) r.entry_hash (next_uint64 total) t p k))

  -- One step of the loop, by what the row is.
  module _ (n : ℕ) (h : Text) (total : ℕ) (r : EntryRow) (rest : Stream EntryRow) where
    verify_low :
        leb_ℤ r.entry_index (pos 0) ≡ true
        → verify_rows c n h total (more r rest) ≡ ok (invalid total h n index_broken)
    unfolding verify_rows
    verify_low a = rw (a, verify_rows)

    verify_fault :
        (why : Reason)
        → leb_ℤ r.entry_index (pos 0) ≡ false
        → link_fault c n h (link_of c r) ≡ some why
        → verify_rows c n h total (more r rest) ≡ ok (invalid total h n why)
    unfolding verify_rows
    verify_fault why a f = rw (a, verify_rows) (rw (f, verify_rows))

    verify_next :
        leb_ℤ r.entry_index (pos 0) ≡ false
        → link_fault c n h (link_of c r) ≡ none
        → verify_rows c n h total (more r rest)
          ≡ verify_rows c (next_uint64 n) r.entry_hash (next_uint64 total) rest
    unfolding verify_rows
    verify_next a f = rw (a, verify_rows) (rw (f, verify_rows))

  not_valid :
      (n : ℕ) (h : Text) (total : ℕ) (why : Reason) (v : VerifyResult)
      → ok (invalid total h n why) ≡ ok v
      → v.valid ≡ true
      → ⊥
  not_valid n h total why v e k =
      ground (arith, ap (λ (x : VerifyResult). x.valid) (ok_injective e))

  pub verify_rows_sound :
      (o : Option Error) (n : ℕ) (h : Text) (total : ℕ) (t : List EntryRow) (v : VerifyResult)
      → verify_rows c n h total (stream_of c o t) ≡ ok v
      → v.valid ≡ true
      → Positive t × IsChain c n h (map (link_of c) t)
  unfolding stream_of
  verify_rows_sound o n h total [] v e k = (tt, tt)
  verify_rows_sound o n h total (r ∷ t) v e k = elim (Bool-cases (leb_ℤ r.entry_index (pos 0))) [
    | inl a ↦ absurd (
        not_valid n h total index_broken v (sym (verify_low n h total r (stream_of c o t) a) ∙ e) k)
    | inr a ↦ elim (Option-cases (link_fault c n h (link_of c r))) [
      | inr (why, f) ↦ absurd (
          not_valid n h total why v (sym (verify_fault n h total r (stream_of c o t) why a f) ∙ e)
            k)
      | inl f ↦
          let (p, i) =
            verify_rows_sound o (next_uint64 n) r.entry_hash (next_uint64 total) t v
              (sym (verify_next n h total r (stream_of c o t) a f) ∙ e) k in
          ((a, p), (link_fault-none c n h (link_of c r) f, i))
    ]
  ]

  -- Rows that all arrive have a result.
  verify_rows_total :
      (n : ℕ) (h : Text) (total : ℕ) (t : List EntryRow)
      → (v : VerifyResult) × (verify_rows c n h total (stream_of c none t) ≡ ok v)
  unfolding verify_rows stream_of
  verify_rows_total n h total [] = (intact total h, refl)
  verify_rows_total n h total (r ∷ t) = elim (Bool-cases (leb_ℤ r.entry_index (pos 0))) [
    | inl a ↦ (invalid total h n index_broken, verify_low n h total r (stream_of c none t) a)
    | inr a ↦ elim (Option-cases (link_fault c n h (link_of c r))) [
      | inr (why, f) ↦
          (invalid total h n why, verify_fault n h total r (stream_of c none t) why a f)
      | inl f ↦
          let (v, e) = verify_rows_total (next_uint64 n) r.entry_hash (next_uint64 total) t in
          (v, verify_next n h total r (stream_of c none t) a f ∙ e)
    ]
  ]

  -- The result that Verify gives of a chain: the number of rows and the last hash.
  abbrev pub whole_result : List EntryRow → VerifyResult
  whole_result t = intact (count_from 0 (map (link_of c) t)) (head_hash genesis (map (link_of c) t))

  -- The rows are a hash chain from the first hash on, and every index is positive.
  abbrev pub IsTable : List EntryRow → Type 0
  IsTable t = Positive t × IsChain c 1 genesis (map (link_of c) t)

  -- Verify, where the query succeeds and all rows arrive, gives a result. That is valid exactly if the
  -- rows, by their index, are a hash chain from the first hash on, and every index is positive; it then
  -- reports the number of rows and the last hash.
  pub verify_iff :
      (t : List EntryRow)
      → (v : VerifyResult) × (verify c none none t ≡ ok v)
        × ((v.valid ≡ true) ↔ IsTable (by_index t))
        × (IsTable (by_index t) → v ≡ whole_result (by_index t))
  unfolding verify
  verify_iff t =
      let (v, e) = verify_rows_total 1 genesis 0 (by_index t) in
      let exact : IsTable (by_index t) → v ≡ whole_result (by_index t) =
        λ k. ok_injective (sym e ∙ verify_rows_complete 1 genesis 0 (by_index t) k.0 k.1) in
      (
        v,
        e,
        (
          λ valid. verify_rows_sound none 1 genesis 0 (by_index t) v e valid,
          λ k. ap (λ (x : VerifyResult). x.valid) (exact k),
        ),
        exact,
      )

  -- A table that NewPostgresStore verified, whatever the errors of the query would have been.
  pub verify-IsTable :
      (q o : Option Error) (t : List EntryRow) (v : VerifyResult)
      → verify c q o t ≡ ok v
      → v.valid ≡ true
      → IsTable (by_index t)
  unfolding verify
  verify-IsTable none o t v e k = verify_rows_sound o 1 genesis 0 (by_index t) v e k
  verify-IsTable (some x) o t v e k = absurd cc
