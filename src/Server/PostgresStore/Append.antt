-- ===== src/Server/PostgresStore/Append.antt =====
-- What Append of the Postgres store keeps: the rows stay a chain.
use audit_logging.Common.{
  ℕ, suc, ◌+◌, ◌<◌, ◌≤◌, List, [], ◌∷◌, ◌++◌, ◌≡◌, refl, sym, subst, ap, ◌∙◌, true, arith, inl, inr,
  map, length,
}
use audit_logging.Common.Int.{ℤ, pos, leb_ℤ, add_int64}
use audit_logging.Text.{Text}
use audit_logging.Text.Decimal.{max_int64, format_int}
use audit_logging.Server.Model.{ok, next_uint64, LogRecord, Entry, Result-cases}
use audit_logging.Server.Codec.{Codec}
use audit_logging.Server.Chain.{
  genesis, preimage, entry_digest, Link, IsLink, IsChain, head_hash, count_from,
}
use audit_logging.Server.FileStore.Coherent.{IsChain-concat}
use audit_logging.Server.PostgresStore.{
  EntryRow, insert_by_index, by_index, last_of, insert_entry, row_behind, TxEnv, run_tx, settle_tx,
  append, link_of,
}

-- The rows are in order, with indexes from `n` on that fit a signed word.
abbrev pub Numbered : ℕ → List EntryRow → Type 0
Numbered n [] = n ≤ max_int64
Numbered n (r ∷ t) = (r.entry_index ≡ pos n) × (n < max_int64) × Numbered (suc n) t

in_order : (n : ℕ) (x y : ℤ) → x ≡ pos n → y ≡ pos (suc n) → leb_ℤ x y ≡ true
in_order n x y e a = rw e (rw a (ground arith))

insert_by_index-Numbered :
    (n : ℕ) (r : EntryRow) (t : List EntryRow)
    → r.entry_index ≡ pos n
    → Numbered (suc n) t
    → insert_by_index r t ≡ r ∷ t
unfolding insert_by_index
insert_by_index-Numbered n r [] e h = refl
insert_by_index-Numbered n r (s ∷ t) e (a, _, _) =
    rw (in_order n r.entry_index s.entry_index e a) refl

-- A table in order is its own answer.
pub by_index-Numbered : (n : ℕ) (t : List EntryRow) → Numbered n t → by_index t ≡ t
unfolding by_index
by_index-Numbered n [] h = refl
by_index-Numbered n (r ∷ t) (a, b, h) =
    ap (insert_by_index r) (by_index-Numbered (suc n) t h) ∙ insert_by_index-Numbered n r t a h

pub add-one : (n : ℕ) → n < max_int64 → add_int64 (pos n) (pos 1) ≡ pos (suc n)
unfolding add_int64
add-one n h = ground arith

concat-Numbered :
    (n : ℕ) (t : List EntryRow) (r : EntryRow)
    → Numbered n t
    → r.entry_index ≡ pos (n + length t)
    → n + length t < max_int64
    → Numbered n (t ++ r ∷ [])
concat-Numbered n [] r h e l = (e ∙ ap pos (omega arith), omega arith, omega arith)
concat-Numbered n (s ∷ t) r (a, b, h) e l =
    (a, b, concat-Numbered (suc n) t r h (e ∙ ap pos (omega arith)) (omega arith))

one_more : (n : ℕ) → 1 + n ≡ suc n
one_more n = omega arith

map-append : {A B : Type 0} (f : A → B) (xs ys : List A) → map f (xs ++ ys) ≡ map f xs ++ map f ys
map-append f [] ys = refl
map-append f (x ∷ xs) ys = ap (◌∷◌ (f x)) (map-append f xs ys)

module _ (c : Codec) where
  abbrev links : List EntryRow → List Link
  links t = map (link_of c) t

  last_of-Numbered :
      (n : ℕ) (r : EntryRow) (t : List EntryRow)
      → Numbered n (r ∷ t)
      → last_of (r ∷ t) ≡ (pos (n + length t), head_hash r.entry_hash (links t))
  last_of-Numbered n r [] (a, _, _) = ap (λ (x : ℤ). (x, r.entry_hash)) (a ∙ ap pos (omega arith))
  last_of-Numbered n r (s ∷ t) (a, b, h) =
      last_of-Numbered (suc n) s t h
      ∙ ap (λ (k : ℕ). (pos k, head_hash s.entry_hash (links t))) (omega arith)

  -- The last index is the number of rows, and the last hash the head of the chain.
  last_of_lem :
      (t : List EntryRow) → Numbered 1 t → last_of t ≡ (pos (length t), head_hash genesis (links t))
  last_of_lem [] h = refl
  last_of_lem (r ∷ t) h =
      last_of-Numbered 1 r t h
      ∙ ap (λ (k : ℕ). (pos k, head_hash r.entry_hash (links t))) (omega arith)

  count_from-links :
      (n : ℕ) (t : List EntryRow) → Numbered n t → count_from n (links t) ≡ n + length t
  count_from-links n [] h = omega arith
  count_from-links n (r ∷ t) (a, b, h) =
      ap (λ (k : ℕ). count_from k (links t)) (next_lem n b)
      ∙ count_from-links (suc n) t h
      ∙ omega arith
    where
      next_lem : (n : ℕ) → n < max_int64 → next_uint64 n ≡ suc n
      next_lem n b = omega arith

  row_behind-IsLink :
      (n : ℕ) (h timestamp payload : Text)
      → n < max_int64
      → IsLink c (suc n) h (link_of c (row_behind c (pos n, h) timestamp payload))
  unfolding row_behind entry_digest preimage format_int
  row_behind-IsLink n h timestamp payload b =
      rw (add-one n b)
        (record { index = omega arith; prev_hash = refl; payload_hash = refl; entry_hash = refl })

  row_lem :
      (last : ℤ × Text) (timestamp payload : Text)
      → payload ≡ (row_behind c last timestamp payload).record_json
  unfolding row_behind
  row_lem (n, h) timestamp payload = refl

  row_index :
      (n : ℕ) (h timestamp payload : Text)
      → n < max_int64
      → (row_behind c (pos n, h) timestamp payload).entry_index ≡ pos (1 + n)
  unfolding row_behind
  row_index n h timestamp payload b = add-one n b ∙ ap pos (omega arith)

  -- What a transaction that was committed did.
  append-row :
      (env : TxEnv) (r : LogRecord) (t t' : List EntryRow) (e : Entry)
      → append c env r t ≡ (ok e, t')
      → (payload : Text) × (c.marshal_record r ≡ ok payload)
        × (t' ≡ t ++ row_behind c (last_of (by_index t)) env.now payload ∷ [])
  unfolding append run_tx settle_tx insert_entry
  append-row env r t t' e h = elim (Result-cases (c.marshal_record r)) [
    | inl (payload, m) ↦ (payload, m, ground arith)
    | inr (x, m) ↦ absurd (ground arith)
  ]

  -- The table keeps its rows in order and the chain that they are.
  pub record IsExtended (r : LogRecord) (t t' : List EntryRow) : Type 0 where
    pub row : EntryRow
    pub table : t' ≡ t ++ row ∷ []
    pub payload : c.marshal_record r ≡ ok row.record_json
    pub numbered : Numbered 1 t'
    pub chain : IsChain c 1 genesis (map (link_of c) t')

  -- An append that is committed, to a table whose rows are numbered from 1 on and are a hash chain,
  -- adds one row, which carries the marshalled record, and the rows stay numbered and a chain, as long
  -- as the index fits in a signed word.
  pub append-IsExtended :
      (env : TxEnv) (r : LogRecord) (t t' : List EntryRow) (e : Entry)
      → Numbered 1 t
      → IsChain c 1 genesis (map (link_of c) t)
      → 1 + length t < max_int64
      → append c env r t ≡ (ok e, t')
      → IsExtended r t t'
  append-IsExtended env r t t' e n k l h =
      let (payload, m, table) = append-row env r t t' e h in
      let last = ap last_of (by_index-Numbered 1 t n) ∙ last_of_lem t n in
      let row = row_behind c (pos (length t), head_hash genesis (links t)) env.now payload in
      let added = table ∙ ap (λ (x : ℤ × Text). t ++ row_behind c x env.now payload ∷ []) last in
      record {
        row = row;
        table = added;
        payload = m ∙ ap ok (row_lem (pos (length t), head_hash genesis (links t)) env.now payload);
        numbered = subst (Numbered 1) (sym added) (
            concat-Numbered 1 t row n
              (row_index (length t) (head_hash genesis (links t)) env.now payload (omega arith)) l);
        chain =
            subst (λ (x : List EntryRow). IsChain c 1 genesis (links x)) (sym added)
              (rw (map-append (link_of c) t (row ∷ [])) (
                IsChain-concat c 1 genesis (links t) (link_of c row) k (
                  rw (count_from-links 1 t n ∙ one_more (length t)) (
                    row_behind-IsLink (length t) (head_hash genesis (links t)) env.now payload
                      (omega arith)))));
      }
