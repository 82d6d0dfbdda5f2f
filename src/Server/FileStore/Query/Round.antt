-- ===== src/Server/FileStore/Query/Round.antt =====
-- What one round of the loop of QueryLogs does to the page that is to come.
use audit_logging.Common.{
  ℕ, zero, suc, ◌+◌, ◌-◌, ◌≤◌, ◌<◌, List, [], ◌∷◌, ◌++◌, ◌≡◌, refl, sym, ap, ◌∙◌, Bool, true, false,
  ◌||◌, arith, ltb, length, take, drop, select, append-nil, append_assoc, length-append,
}
use audit_logging.Common.Int.{ℤ, pos, negsuc, ltb_ℤ, pos_part}
use audit_logging.Server.Model.{Entry, LogQuery}
use audit_logging.Server.Window.{behind}
use audit_logging.Server.FileStore.Query.{Page}

module _ {ℓ} {A : Type ℓ} where
  pub drop_nil : (n : ℕ) → drop {A = A} n [] ≡ []
  drop_nil zero = refl
  drop_nil (suc n) = refl

  pub take_nil : (n : ℕ) → take {A = A} n [] ≡ []
  take_nil zero = refl
  take_nil (suc n) = refl

  drop_step :
      (n k : ℕ) (x : A) (xs : List A) → k < n → drop (n - k) (x ∷ xs) ≡ drop (n - (k + 1)) xs
  drop_step n k x xs h = let e : n - k ≡ suc (n - (k + 1)) = omega arith in rw e

  drop_past : (n k : ℕ) (xs : List A) → n ≤ k → drop (n - k) xs ≡ xs
  drop_past n k xs h = let e : n - k ≡ 0 = omega arith in rw e

  take_step :
      (n k : ℕ) (x : A) (xs : List A) → k < n → take (n - k) (x ∷ xs) ≡ x ∷ take (n - (k + 1)) xs
  take_step n k x xs h = let e : n - k ≡ suc (n - (k + 1)) = omega arith in rw e

  take_past : (n k : ℕ) (xs : List A) → n ≤ k → take (n - k) xs ≡ []
  take_past n k xs h = let e : n - k ≡ 0 = omega arith in rw e

-- A Go integer bounds a count as its non-negative part does.
pub ltb_ℤ-pos : (n : ℕ) (z : ℤ) → ltb_ℤ (pos n) z ≡ ltb n (pos_part z)
ltb_ℤ-pos n (pos k) = refl
ltb_ℤ-pos n (negsuc k) = ground arith

module _ (matching : Entry → Bool) (q : LogQuery) where
  -- What is left of the window for a page in the making.
  abbrev pub ahead : List Entry → Page → List Entry
  ahead es p = drop (pos_part q.offset - p.skipped) (behind q.after_index (select matching es))

  abbrev pub room : Page → ℕ
  room p = pos_part q.limit - length p.items

  pub record Goal (es : List Entry) (p r : Page) : Type 0 where
    pub items : r.items ≡ p.items ++ take (room p) (ahead es p)
    pub has_more : r.has_more ≡ (p.has_more || ltb (room p) (length (ahead es p)))
    pub total : q.want_total ≡ true → r.total ≡ p.total + length (select matching es)

  module _ (e : Entry) (es : List Entry) (p : Page) where
    ahead_unmatched : matching e ≡ false → ahead (e ∷ es) p ≡ ahead es p
    ahead_unmatched m = rw m

    ahead_behind : matching e ≡ true → e.index ≤ q.after_index → ahead (e ∷ es) p ≡ ahead es p
    ahead_behind m h = rw m (ground arith)

    ahead_cons :
        matching e ≡ true
        → q.after_index < e.index
        → ahead (e ∷ es) p
          ≡ drop (pos_part q.offset - p.skipped) (e ∷ behind q.after_index (select matching es))
    ahead_cons m h = rw m (ground arith)

  -- One round, by what the entry is: the page in the making after it, and what is then to come.
  module _ (e : Entry) (es : List Entry) (p : Page) (r : Page) where
    abbrev pub counted : Page
    counted = record p { total = p.total + 1 }

    pub unmatched-Goal : matching e ≡ false → Goal es p r → Goal (e ∷ es) p r
    unmatched-Goal m g = record {
      items = g.items ∙ ap (λ w. p.items ++ take (room p) w) (sym (ahead_unmatched e es p m));
      has_more =
          g.has_more
          ∙ ap (λ (w : List Entry). p.has_more || ltb (room p) (length w))
              (sym (ahead_unmatched e es p m));
      total = λ w. rw m (g.total w);
    }

    total_counted :
        (x : Page)
        → matching e ≡ true
        → x.total ≡ p.total + 1
        → Goal es x r
        → q.want_total ≡ true
        → r.total ≡ p.total + length (select matching (e ∷ es))
    total_counted x m t g w = rw m (omega (arith, g.total w, t))

    pub behind-Goal :
        matching e ≡ true → e.index ≤ q.after_index → Goal es counted r → Goal (e ∷ es) p r
    behind-Goal m h g = record {
      items = g.items ∙ ap (λ w. p.items ++ take (room p) w) (sym (ahead_behind e es p m h));
      has_more =
          g.has_more
          ∙ ap (λ (w : List Entry). p.has_more || ltb (room p) (length w))
              (sym (ahead_behind e es p m h));
      total = total_counted counted m refl g;
    }

    module _ (m : matching e ≡ true) (h : q.after_index < e.index) where
      ahead_skip :
          p.skipped < pos_part q.offset
          → ahead (e ∷ es) p ≡ ahead es (record counted { skipped = p.skipped + 1 })
      ahead_skip k = ahead_cons e es p m h ∙ drop_step _ _ e _ k

      pub skip-Goal :
          p.skipped < pos_part q.offset
          → Goal es (record counted { skipped = p.skipped + 1 }) r
          → Goal (e ∷ es) p r
      skip-Goal k g = record {
        items = g.items ∙ ap (λ w. p.items ++ take (room p) w) (sym (ahead_skip k));
        has_more =
            g.has_more
            ∙ ap (λ (w : List Entry). p.has_more || ltb (room p) (length w)) (sym (ahead_skip k));
        total = total_counted _ m refl g;
      }

      module _ (k : pos_part q.offset ≤ p.skipped) where
        ahead_here : ahead (e ∷ es) p ≡ e ∷ ahead es p
        ahead_here =
            ahead_cons e es p m h
            ∙ drop_past _ _ _ k
            ∙ ap (◌∷◌ e) (sym (drop_past (pos_part q.offset) p.skipped _ k))

        pub take-Goal :
            length p.items < pos_part q.limit
            → Goal es (record counted { items = p.items ++ e ∷ [] }) r
            → Goal (e ∷ es) p r
        take-Goal l g =
            let less : pos_part q.limit - length (p.items ++ e ∷ [])
                ≡ pos_part q.limit - (length p.items + 1) =
              omega (arith, length-append p.items (e ∷ [])) in
            record {
              items =
                  g.items
                  ∙ append_assoc p.items (e ∷ []) _
                  ∙ ap (λ n. p.items ++ (e ∷ take n (ahead es p))) less
                  ∙ ap (λ w. p.items ++ w)
                      (sym (ap (take (room p)) ahead_here ∙ take_step _ _ e (ahead es p) l));
              has_more =
                  ground (arith, g.has_more, less, ap (λ (w : List Entry). length w) ahead_here);
              total = total_counted _ m refl g;
            }

        pub full-Goal :
            pos_part q.limit ≤ length p.items
            → Goal es (record counted { has_more = true }) r
            → Goal (e ∷ es) p r
        full-Goal l g = record {
          items =
              g.items
              ∙ ap (λ w. p.items ++ w) (take_past _ _ _ l)
              ∙ ap (λ w. p.items ++ w) (sym (take_past _ _ (ahead (e ∷ es) p) l));
          has_more = ground (arith, g.has_more, ap (λ (w : List Entry). length w) ahead_here);
          total = total_counted _ m refl g;
        }

        pub break-Goal :
            pos_part q.limit ≤ length p.items
            → q.want_total ≡ false
            → r ≡ record counted { has_more = true }
            → Goal (e ∷ es) p r
        break-Goal l w x = record {
          items =
              ap (λ (y : Page). y.items) x
              ∙ sym (append-nil p.items)
              ∙ ap (λ w. p.items ++ w) (sym (take_past _ _ (ahead (e ∷ es) p) l));
          has_more = ground (
            arith,
            ap (λ (y : Page). y.has_more) x,
            ap (λ (w : List Entry). length w) ahead_here,
          );
          total = λ y. absurd (cc);
        }
