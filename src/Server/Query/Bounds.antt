-- ===== src/Server/Query/Bounds.antt =====
-- What parseLogQuery accepts is within the limits.
use audit_logging.Common.{
  ℕ, ◌≤◌, [], ◌∷◌, subst, ◌≡◌, ◌⊎◌, inl, inr, refl, true, false, arith, if◌then◌else◌,
}
use audit_logging.Common.Int.{ℤ, pos, negsuc, ltb_ℤ, leb_ℤ}
use audit_logging.Text.{Text, codes}
use audit_logging.Text.Space.{trim_space}
use audit_logging.Text.Fold.{Unicode}
use audit_logging.Text.Decimal.{max_int64}
use audit_logging.Server.Model.{ok, bind-eq-ok, binds-eq-ok, ok_injective, LogQuery}
use audit_logging.Server.Cursor.{decode_cursor-le-max_int64}
use audit_logging.Server.Query.{
  Values, QueryLimits, normalize_log_query, read_after, read_number, accept_offset, read_offset,
  raw_query, parse_log_query,
}

-- Limits that an operator can set: envInt gives positive numbers only.
pub record IsPositive (l : QueryLimits) : Type 0 where
  pub default_limit : leb_ℤ (pos 1) l.default_limit ≡ true
  pub max_limit : leb_ℤ (pos 1) l.max_limit ≡ true
  pub max_offset : leb_ℤ (pos 1) l.max_offset ≡ true

pub record InBounds (l : QueryLimits) (q : LogQuery) : Type 0 where
  pub limit_positive : leb_ℤ (pos 1) q.limit ≡ true
  pub limit_max : leb_ℤ q.limit l.max_limit ≡ true
  pub offset_positive : leb_ℤ (pos 0) q.offset ≡ true
  pub offset_max : leb_ℤ q.offset l.max_offset ≡ true
  pub after_index : q.after_index ≤ max_int64
  pub exclusive : (q.after_index ≡ 0) ⊎ (q.offset ≡ pos 0)

limit_lem :
    (m d x : ℤ)
    → leb_ℤ (pos 1) d ≡ true
    → leb_ℤ (pos 1) m ≡ true
    → let y = if leb_ℤ x (pos 0) then d else x in
      let z = if ltb_ℤ m y then m else y in (leb_ℤ (pos 1) z ≡ true) × (leb_ℤ z m ≡ true)
limit_lem (negsuc m) d x h k = ground arith
limit_lem (pos m) (negsuc d) x h k = ground arith
limit_lem (pos m) (pos d) (negsuc x) h k = ground arith
limit_lem (pos m) (pos d) (pos x) h k = ground arith

offset_lem :
    (m x : ℤ)
    → leb_ℤ (pos 1) m ≡ true
    → ltb_ℤ m x ≡ false
    → let z = if ltb_ℤ x (pos 0) then pos 0 else x in (leb_ℤ (pos 0) z ≡ true) × (leb_ℤ z m ≡ true)
offset_lem (negsuc m) x h k = ground arith
offset_lem (pos m) (negsuc x) h k = ground arith
offset_lem (pos m) (pos x) h k = ground arith

read_after-le :
    (cursor_raw offset_raw : Text) (n : ℕ) → read_after cursor_raw offset_raw ≡ ok n → n ≤ max_int64
unfolding read_after
read_after-le cursor_raw offset_raw n h = ground (arith, decode_cursor-le-max_int64 cursor_raw n)

read_after-exclusive :
    (cursor_raw offset_raw : Text) (n : ℕ)
    → read_after cursor_raw offset_raw ≡ ok n
    → (n ≡ 0) ⊎ (offset_raw ≡ [])
unfolding read_after
read_after-exclusive [] offset_raw n h = inl (ground arith)
read_after-exclusive (c ∷ s) [] n h = inr refl
read_after-exclusive (c ∷ s) (d ∷ t) n h = absurd (ground arith)

accept_offset_lem :
    (l : QueryLimits) (x n : ℤ)
    → accept_offset l x ≡ ok n
    → (x ≡ n) × (ltb_ℤ l.max_offset x ≡ false)
unfolding accept_offset
accept_offset_lem l x n h = ground arith

read_offset-nil : (l : QueryLimits) (n : ℤ) → read_offset l [] ≡ ok n → n ≡ pos 0
unfolding read_offset
read_offset-nil l n h = ground arith

zero-below : (m : ℤ) → leb_ℤ (pos 1) m ≡ true → ltb_ℤ m (pos 0) ≡ false
zero-below (pos m) h = ground arith
zero-below (negsuc m) h = ground arith

read_offset-max :
    (l : QueryLimits) (raw : Text) (n : ℤ)
    → leb_ℤ (pos 1) l.max_offset ≡ true
    → read_offset l raw ≡ ok n
    → ltb_ℤ l.max_offset n ≡ false
unfolding read_offset
read_offset-max l [] n h k = rw (read_offset-nil l n k) (zero-below l.max_offset h)
read_offset-max l (c ∷ s) n h k =
    let (x, _, e) = bind-eq-ok (read_number (codes "invalid offset") (c ∷ s)) (accept_offset l) k in
    let (same, low) = accept_offset_lem l x n e in cc

normalize_log_query-InBounds :
    (l : QueryLimits) (q : LogQuery)
    → IsPositive l
    → q.after_index ≤ max_int64
    → ltb_ℤ l.max_offset q.offset ≡ false
    → (q.after_index ≡ 0) ⊎ (q.offset ≡ pos 0)
    → InBounds l (normalize_log_query q l)
unfolding normalize_log_query raw_query
normalize_log_query-InBounds l q p a b c =
    let (low, high) = limit_lem l.max_limit l.default_limit q.limit p.default_limit p.max_limit in
    let (from, to) = offset_lem l.max_offset q.offset p.max_offset b in
    record {
      limit_positive = low;
      limit_max = high;
      offset_positive = from;
      offset_max = to;
      after_index = a;
      exclusive = elim c [ inl e ↦ inl e | inr e ↦ inr (rw e refl) ];
    }

-- Whatever a caller asks for, a query that is accepted asks for at least one entry and for at most
-- the maximum, skips between none and the maximal offset, starts behind an index that fits in a
-- signed word, and never has both a cursor and an offset.
pub parse_log_query-InBounds :
    (u : Unicode) (values : Values) (l : QueryLimits) (q : LogQuery)
    → IsPositive l
    → parse_log_query u values l ≡ ok q
    → InBounds l q
unfolding parse_log_query raw_query
parse_log_query-InBounds u values l q p h =
    let offset_raw = trim_space (values (codes "offset")) in
    let cursor_raw = trim_space (values (codes "cursor")) in
    let (after_index, limit, offset, a, b, c, e) =
      binds-eq-ok (read_after cursor_raw offset_raw)
        (read_number (codes "invalid limit") (trim_space (values (codes "limit"))))
        (read_offset l offset_raw)
        (λ after_index limit offset.
          ok (normalize_log_query (raw_query u values after_index limit offset) l))
        h in
    subst (InBounds l) (ok_injective e) (
      normalize_log_query-InBounds l (raw_query u values after_index limit offset) p
        (read_after-le cursor_raw offset_raw after_index a)
        (read_offset-max l offset_raw offset p.max_offset c)
        (exclusive after_index offset (read_after-exclusive cursor_raw offset_raw after_index a) c))
  where
    exclusive :
        (n : ℕ) (x : ℤ)
        → (n ≡ 0) ⊎ (trim_space (values (codes "offset")) ≡ [])
        → read_offset l (trim_space (values (codes "offset"))) ≡ ok x
        → (n ≡ 0) ⊎ (x ≡ pos 0)
    exclusive n x (inl e) c = inl e
    exclusive n x (inr e) c =
        inr (read_offset-nil l x (subst (λ (t : Text). read_offset l t ≡ ok x) e c))
