-- ===== src/Server/FileStore/Query/Loop.antt =====
-- The pass over the lines computes the page that the specification says.
use audit_logging.Common.{
  ◌+◌, ◌≤◌, ◌<◌, List, [], ◌∷◌, ◌++◌, ◌≡◌, refl, sym, Bool, true, false, arith, leb, ltb, length,
  append-nil, Bool-cases, inl, inr, le→leb, leb→le, lt→ltb, ltb→lt,
}
use audit_logging.Common.Int.{pos_part}
use audit_logging.Server.Model.{Entry, LogQuery}
use audit_logging.Server.FileStore.Query.Round.{
  drop_nil, take_nil, ltb_ℤ-pos, Goal, unmatched-Goal, behind-Goal, skip-Goal, take-Goal, full-Goal,
  break-Goal,
}
use audit_logging.Server.FileStore.Query.{Page, continue, break, query_entry}

module _ (matching : Entry → Bool) (q : LogQuery) where
  -- the loop over entries that were read
  unfoldable pub query_entries : List Entry → Page → Page
  query_entries [] p = p
  query_entries (e ∷ es) p = elim (query_entry matching q e p) [
    | continue p' ↦ query_entries es p'
    | break p' ↦ p'
  ]

  -- What the body of the loop does with an entry, test by test.
  module _ (e : Entry) (p : Page) where
    query_entry_unmatched : matching e ≡ false → query_entry matching q e p ≡ continue p
    unfolding query_entry
    query_entry_unmatched m = rw m

    query_entry_behind :
        matching e ≡ true
        → e.index ≤ q.after_index
        → query_entry matching q e p ≡ continue (record p { total = p.total + 1 })
    unfolding query_entry
    query_entry_behind m h = rw m (rw (le→leb _ _ h))

    module _ (m : matching e ≡ true) (h : leb e.index q.after_index ≡ false) where
      query_entry_skip :
          p.skipped < pos_part q.offset
          → query_entry matching q e p
            ≡ continue (record p { total = p.total + 1; skipped = p.skipped + 1 })
      unfolding query_entry
      query_entry_skip k = rw (m, h) (rw (ltb_ℤ-pos p.skipped q.offset) (rw (lt→ltb _ _ k)))

      module _ (k : ltb p.skipped (pos_part q.offset) ≡ false) where
        query_entry_take :
            length p.items < pos_part q.limit
            → query_entry matching q e p
              ≡ continue (record p { total = p.total + 1; items = p.items ++ e ∷ [] })
        unfolding query_entry
        query_entry_take l =
            rw (m, h) (rw (ltb_ℤ-pos p.skipped q.offset) (rw k (rw ltb_ℤ-pos (rw (lt→ltb _ _ l)))))

        module _ (l : ltb (length p.items) (pos_part q.limit) ≡ false) where
          query_entry_full :
              q.want_total ≡ true
              → query_entry matching q e p
                ≡ continue (record p { total = p.total + 1; has_more = true })
          unfolding query_entry
          query_entry_full w =
              rw (m, h) (rw (ltb_ℤ-pos p.skipped q.offset) (rw k (rw ltb_ℤ-pos (rw l (rw w)))))

          query_entry_break :
              q.want_total ≡ false
              → query_entry matching q e p
                ≡ break (record p { total = p.total + 1; has_more = true })
          unfolding query_entry
          query_entry_break w =
              rw (m, h) (rw (ltb_ℤ-pos p.skipped q.offset) (rw k (rw ltb_ℤ-pos (rw l (rw w)))))

  -- The rounds of a matching entry behind the cursor.
  fresh-Goal :
      (e : Entry) (es : List Entry) (p : Page)
      → matching e ≡ true
      → leb e.index q.after_index ≡ false
      → ((x : Page) → Goal matching q es x (query_entries es x))
      → Goal matching q (e ∷ es) p (query_entries (e ∷ es) p)
  unfolding query_entries
  fresh-Goal e es p m h ih = elim (Bool-cases (ltb p.skipped (pos_part q.offset))) [
    | inl k ↦
        rw (query_entry_skip e p m h (ltb→lt _ _ k), query_entries)
          (skip-Goal matching q e es p _ m (ground arith) (ltb→lt _ _ k) (ih _))
    | inr k ↦ elim (Bool-cases (ltb (length p.items) (pos_part q.limit))) [
      | inl l ↦
          rw (query_entry_take e p m h k (ltb→lt _ _ l), query_entries)
            (take-Goal matching q e es p _ m (ground arith) (ground arith) (ltb→lt _ _ l) (ih _))
      | inr l ↦ elim (Bool-cases q.want_total) [
        | inl w ↦
            rw (query_entry_full e p m h k l w, query_entries)
              (full-Goal matching q e es p _ m (ground arith) (ground arith) (ground arith) (ih _))
        | inr w ↦
            rw (query_entry_break e p m h k l w, query_entries)
              (break-Goal matching q e es p _ m (ground arith) (ground arith) (ground arith) w refl)
      ]
    ]
  ]

  pub query_entries-Goal : (es : List Entry) (p : Page) → Goal matching q es p (query_entries es p)
  unfolding query_entries
  query_entries-Goal [] p = record {
    items = rw (drop_nil, take_nil) (sym (append-nil p.items));
    has_more = rw drop_nil (ground arith);
    total = λ _. omega arith;
  }
  query_entries-Goal (e ∷ es) p = elim (Bool-cases (matching e)) [
    | inr m ↦
        rw (query_entry_unmatched e p m, query_entries)
          (unmatched-Goal matching q e es p _ m (query_entries-Goal es p))
    | inl m ↦ elim (Bool-cases (leb e.index q.after_index)) [
      | inl h ↦
          rw (query_entry_behind e p m (leb→le _ _ h), query_entries)
            (behind-Goal matching q e es p _ m (leb→le _ _ h) (query_entries-Goal es _))
      | inr h ↦ fresh-Goal e es p m h (query_entries-Goal es)
    ]
  ]
