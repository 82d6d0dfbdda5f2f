-- ===== src/Text/Order/Sorted.antt =====
-- The order of Go strings, and lists that sort.Slice has sorted.
use audit_logging.Common.{
  ◌≡◌, refl, arith, [], List, ◌∷◌, Bool, true, false, ◌++◌, All, All-map, if◌then◌else◌,
}
use audit_logging.Text.{Text}
use audit_logging.Text.Order.{less, insert_sorted, sort_slice}

pub less-asym : (s t : Text) → less s t ≡ true → less t s ≡ false
unfolding less
less-asym s [] h = absurd cc
less-asym [] (b ∷ t) h = refl
less-asym (a ∷ s) (b ∷ t) h = ground (arith, less-asym s t)

-- What comes before is told apart from anything in between.
pub less-weak : (s t u : Text) → less t s ≡ false → less u t ≡ false → less u s ≡ false
unfolding less
less-weak [] [] u h k = k
less-weak [] (b ∷ t) [] h k = refl
less-weak [] (b ∷ t) (c ∷ u) h k = refl
less-weak (a ∷ s) [] u h k = absurd cc
less-weak (a ∷ s) (b ∷ t) [] h k = absurd cc
less-weak (a ∷ s) (b ∷ t) (c ∷ u) h k = ground (arith, less-weak s t u)

module _ {ℓ} {A : Type ℓ} (before : A → A → Bool) where
  -- Nothing behind an item comes before it.
  abbrev pub IsSorted : List A → Type 0
  IsSorted [] = Unit
  IsSorted (a ∷ xs) = All (λ b. before b a ≡ false) xs × IsSorted xs

module _ {ℓ} {A : Type ℓ} (before : A → A → Bool)
    (asym : (a b : A) → before a b ≡ true → before b a ≡ false)
    (weak : (a b c : A) → before b a ≡ false → before c b ≡ false → before c a ≡ false) where
  All-insert_sorted :
      (a x : A) (xs : List A)
      → before x a ≡ false
      → All (λ b. before b a ≡ false) xs
      → All (λ b. before b a ≡ false) (insert_sorted before x xs)
  unfolding insert_sorted
  All-insert_sorted a x [] e h = (e, tt)
  All-insert_sorted a x (b ∷ bs) e (f, h) = ground (arith, All-insert_sorted a x bs e h)

  insert_sorted-IsSorted :
      (x : A) (xs : List A) → IsSorted before xs → IsSorted before (insert_sorted before x xs)
  unfolding insert_sorted
  insert_sorted-IsSorted x [] h = (tt, tt)
  insert_sorted-IsSorted x (b ∷ bs) (f, h) =
      insert_step x b bs (before b x) refl f h (insert_sorted-IsSorted x bs h)
    where
      insert_step :
          (x b : A) (bs : List A) (t : Bool)
          → before b x ≡ t
          → All (λ c. before c b ≡ false) bs
          → IsSorted before bs
          → IsSorted before (insert_sorted before x bs)
          → IsSorted before (if t then b ∷ insert_sorted before x bs else x ∷ b ∷ bs)
      insert_step x b bs true e f h rest = (All-insert_sorted b x bs (asym b x e) f, rest)
      insert_step x b bs false e f h rest =
          ((e, All-map (λ c. before c b ≡ false) _ bs (λ c k. weak x b c e k) f), (f, h))

  pub sort_slice-IsSorted : (xs : List A) → IsSorted before (sort_slice before xs)
  unfolding sort_slice
  sort_slice-IsSorted [] = tt
  sort_slice-IsSorted (x ∷ xs) =
      insert_sorted-IsSorted x (sort_slice before xs) (sort_slice-IsSorted xs)

  All-insert_first :
      (x y : A) (ys : List A)
      → before x y ≡ true
      → All (λ z. before x z ≡ true) ys
      → All (λ z. before x z ≡ true) (insert_sorted before y ys)
  unfolding insert_sorted
  All-insert_first x y [] e h = (e, tt)
  All-insert_first x y (b ∷ bs) e (f, h) = ground (arith, All-insert_first x y bs e h)

  All-sort_slice :
      (x : A) (ys : List A)
      → All (λ z. before x z ≡ true) ys
      → All (λ z. before x z ≡ true) (sort_slice before ys)
  unfolding sort_slice
  All-sort_slice x [] h = tt
  All-sort_slice x (y ∷ ys) (e, h) =
      All-insert_first x y (sort_slice before ys) e (All-sort_slice x ys h)

  insert_first :
      (x : A) (ys : List A) → All (λ z. before x z ≡ true) ys → insert_sorted before x ys ≡ x ∷ ys
  unfolding insert_sorted
  insert_first x [] h = refl
  insert_first x (b ∷ bs) (e, h) = rw (asym x b e) refl

  insert_behind :
      (x y : A) (ys : List A)
      → before x y ≡ true
      → insert_sorted before y (x ∷ ys) ≡ x ∷ insert_sorted before y ys
  unfolding insert_sorted
  insert_behind x y ys e = rw e refl

  -- An item that comes before all others is sorted to the front.
  pub sort_slice-first :
      (pre post : List A) (x : A)
      → All (λ z. before x z ≡ true) pre
      → All (λ z. before x z ≡ true) post
      → sort_slice before (pre ++ (x ∷ post)) ≡ x ∷ sort_slice before (pre ++ post)
  unfolding sort_slice
  sort_slice-first [] post x h k = insert_first x _ (All-sort_slice x post k)
  sort_slice-first (y ∷ pre) post x (e, h) k =
      rw (sort_slice-first pre post x h k) (insert_behind x y _ e)
