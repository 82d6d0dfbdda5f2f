-- ===== src/Server/Registry/Table.antt =====
-- How the statements on audit_clients change what is found there.
use audit_logging.Common.{
  [], List, ◌∷◌, ◌++◌, ◌≡◌, refl, false, Option, none, some, if◌then◌else◌, arith, Bool-cases, inl,
  inr, ap, ◌∙◌, subst, Option-cases,
}
use audit_logging.Text.{Text, equal}
use audit_logging.Text.Equal.{equal_iff}
use audit_logging.Server.Model.{ok}
use audit_logging.Server.Registry.{Row, find_row, is_active, update_active, insert_row}

-- The primary key: no id stands in two rows.
abbrev pub IsKeyed : List Row → Type 0
IsKeyed [] = Unit
IsKeyed (r ∷ t) = (find_row r.client_id t ≡ none) × IsKeyed t

-- A setter that leaves the key alone.
abbrev pub KeepsId : (Row → Row) → Type 0
KeepsId set = (r : Row) → (set r).client_id ≡ r.client_id

abbrev pub touch : Text → (Row → Row) → Option Row → Option Row
touch id set none = none
touch id set (some r) = some (if is_active id r then set r else r)

pub find_row-concat :
    (id : Text) (t : List Row) (r : Row)
    → find_row id t ≡ none
    → r.client_id ≡ id
    → find_row id (t ++ r ∷ []) ≡ some r
unfolding find_row
find_row-concat id [] r h e = ground (arith, equal_iff r.client_id id)
find_row-concat id (s ∷ t) r h e = ground (arith, find_row-concat id t r)

pub find_row-concat-of_ne :
    (id : Text) (t : List Row) (r : Row)
    → equal r.client_id id ≡ false
    → find_row id (t ++ r ∷ []) ≡ find_row id t
unfolding find_row
find_row-concat-of_ne id [] r e = rw e refl
find_row-concat-of_ne id (s ∷ t) r e = ground (arith, find_row-concat-of_ne id t r e)

touch_lem :
    (id other : Text) (set : Row → Row) (r : Row)
    → (set r).client_id ≡ r.client_id
    → (rest rest' : Option Row) → rest' ≡ touch id set rest
    → (if equal (if is_active id r then set r else r).client_id other
        then some (if is_active id r then set r else r)
        else rest')
      ≡ touch id set (if equal r.client_id other then some r else rest)
touch_lem id other set r k rest rest' h = elim (Bool-cases (is_active id r)) [
  | inl a ↦ elim (Bool-cases (equal r.client_id other)) [
    | inl e ↦ rw a (rw (ap (λ (x : Text). equal x other) k ∙ e) (rw e (rw a refl)))
    | inr e ↦ rw a (rw (ap (λ (x : Text). equal x other) k ∙ e) (rw e h))
  ]
  | inr a ↦ elim (Bool-cases (equal r.client_id other)) [
    | inl e ↦ rw a (rw e (rw a refl))
    | inr e ↦ rw a (rw e h)
  ]
]

pub find_row-update_active :
    (id other : Text) (set : Row → Row) (t : List Row)
    → KeepsId set
    → find_row other (update_active id set t) ≡ touch id set (find_row other t)
unfolding find_row update_active
find_row-update_active id other set [] k = refl
find_row-update_active id other set (r ∷ t) k =
    let step = touch_lem id other set r (k r) _ _ (find_row-update_active id other set t k) in step

-- The statements keep the primary key.
pub update_active-IsKeyed :
    (id : Text) (set : Row → Row) (t : List Row)
    → KeepsId set
    → IsKeyed t
    → IsKeyed (update_active id set t)
unfolding update_active
update_active-IsKeyed id set [] k h = tt
update_active-IsKeyed id set (r ∷ t) k (a, b) =
    let absent = find_row-update_active id r.client_id set t k ∙ ap (touch id set) a in
    let rest = update_active-IsKeyed id set t k b in
    elim (Bool-cases (is_active id r)) [
      | inl e ↦ rw e (rw (k r) (absent, rest))
      | inr e ↦ rw e (absent, rest)
    ]

equal_comm_false : (a b : Text) → equal a b ≡ false → equal b a ≡ false
equal_comm_false a b h = ground (arith, equal_iff a b, equal_iff b a)

concat-IsKeyed :
    (t : List Row) (r : Row) → IsKeyed t → find_row r.client_id t ≡ none → IsKeyed (t ++ r ∷ [])
unfolding find_row
concat-IsKeyed [] r h a = (refl, tt)
concat-IsKeyed (s ∷ t) r (b, h) a = elim (Bool-cases (equal s.client_id r.client_id)) [
  | inl e ↦ absurd (ground arith)
  | inr e ↦ (
    find_row-concat-of_ne s.client_id t r (equal_comm_false s.client_id r.client_id e) ∙ b,
    concat-IsKeyed t r h (ground arith),
  )
]

pub insert_row-IsKeyed :
    (r : Row) (t t' : List Row) → IsKeyed t → insert_row r t ≡ ok t' → IsKeyed t'
unfolding insert_row
insert_row-IsKeyed r t t' h e = elim (Option-cases (find_row r.client_id t)) [
  | inl n ↦ subst IsKeyed (ground arith) (concat-IsKeyed t r h n)
  | inr (o, n) ↦ absurd (ground arith)
]
