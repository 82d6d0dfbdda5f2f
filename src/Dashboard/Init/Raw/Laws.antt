-- ===== src/Dashboard/Init/Raw/Laws.antt =====
-- cmd/security-dashboard/init.go: the members after setJSON, and the keys that writeOrderedJSON goes through.
use audit_logging.Common.{
  ℕ, ◌+◌, ◌≡◌, ◌↔◌, refl, arith, [], List, ◌∷◌, ◌++◌, false, not, select, Option, none, some,
  if◌then◌else◌,
}
use audit_logging.Text.{Text, equal}
use audit_logging.Text.Equal.{equal_iff, equal_refl}
use audit_logging.Text.Order.{less, sort_texts, sort_slice, insert_sorted}
use audit_logging.Dashboard.Init.Raw.{
  Raw, find_member, put_member, has_member, set_json, config_key_order, listed, keys_of,
  ordered_keys,
}

pub find_member-put_member :
    (j k v : Text) (raw : Raw)
    → equal j k ≡ false
    → find_member j (put_member k v raw) ≡ find_member j raw
unfolding find_member put_member
find_member-put_member j k v [] h = rw h refl
find_member-put_member j k v ((l, w) ∷ raw) h =
    ground (arith, find_member-put_member j k v raw h, equal_iff k l, equal_iff j l, equal_iff j k)

pub find_member-put_self : (k v : Text) (raw : Raw) → find_member k (put_member k v raw) ≡ some v
unfolding find_member put_member
find_member-put_self k v [] = rw (equal_refl k) refl
find_member-put_self k v ((l, w) ∷ raw) = ground (arith, find_member-put_self k v raw, equal_refl k)

pub find_member-set_json :
    (j k : Text) (v : Option Text) (raw : Raw)
    → equal j k ≡ false
    → find_member j (set_json k v raw) ≡ find_member j raw
unfolding set_json
find_member-set_json j k none raw h = refl
find_member-set_json j k (some v) raw h = find_member-put_member j k _ raw h

-- How often a key stands in a list.
unfoldable pub count : Text → List Text → ℕ
count k [] = 0
count k (j ∷ js) = let rest = count k js in if equal k j then rest + 1 else rest

count-append : (k : Text) (xs ys : List Text) → count k (xs ++ ys) ≡ count k xs + count k ys
unfolding count
count-append k [] ys = omega arith
count-append k (x ∷ xs) ys = ground (arith, count-append k xs ys)

count-insert_sorted :
    (k a : Text) (xs : List Text) → count k (insert_sorted less a xs) ≡ count k (a ∷ xs)
unfolding count insert_sorted
count-insert_sorted k a [] = refl
count-insert_sorted k a (x ∷ xs) = ground (arith, count-insert_sorted k a xs)

count-sort_texts : (k : Text) (xs : List Text) → count k (sort_texts xs) ≡ count k xs
unfolding sort_slice count
count-sort_texts k [] = refl
count-sort_texts k (x ∷ xs) =
    ground (arith, count-insert_sorted k x (sort_texts xs), count-sort_texts k xs)

-- No key stands twice.
abbrev pub Nodup : List Text → Type 0
Nodup [] = Unit
Nodup (k ∷ ks) = (listed k ks ≡ false) × Nodup ks

abbrev pub IsMap : Raw → Type 0
IsMap raw = Nodup (keys_of raw)

pub listed-count : (k : Text) (ks : List Text) → (listed k ks ≡ false) ↔ (count k ks ≡ 0)
unfolding listed count
listed-count k [] = (λ h. refl, λ h. refl)
listed-count k (j ∷ js) = ground (arith, listed-count k js)

pub count-Nodup :
    (k : Text) (ks : List Text) → Nodup ks → count k ks ≡ (if listed k ks then 1 else 0)
unfolding listed count
count-Nodup k [] h = refl
count-Nodup k (j ∷ js) (fresh, h) = ground (arith, count-Nodup k js h, equal_iff k j)

pub has_member-listed : (k : Text) (raw : Raw) → has_member k raw ≡ listed k (keys_of raw)
unfolding has_member find_member listed
has_member-listed k [] = refl
has_member-listed k ((j, v) ∷ raw) = ground (arith, has_member-listed k raw)

count-select_present :
    (k : Text) (raw : Raw) (order : List Text)
    → count k (select (λ j. has_member j raw) order)
      ≡ (if has_member k raw then count k order else 0)
unfolding count
count-select_present k raw [] = ground arith
count-select_present k raw (j ∷ js) = ground (arith, count-select_present k raw js, equal_iff k j)

count-select_extra :
    (k : Text) (order ks : List Text)
    → count k (select (λ j. not (listed j order)) ks) ≡ (if listed k order then 0 else count k ks)
unfolding count
count-select_extra k order [] = ground arith
count-select_extra k order (j ∷ js) = ground (arith, count-select_extra k order js, equal_iff k j)

-- Of a map's members and an order without repetition, each key stands in the text exactly as often as in
-- the map: every member is written, once, and no other.
pub count-ordered_keys :
    (k : Text) (raw : Raw) (order : List Text)
    → IsMap raw
    → Nodup order
    → count k (ordered_keys raw order) ≡ count k (keys_of raw)
unfolding ordered_keys
count-ordered_keys k raw order h o =
    rw (count-append, count-select_present k raw, count-sort_texts, count-select_extra k order)
      (ground
        (arith, count-Nodup k order o, count-Nodup k (keys_of raw) h, has_member-listed k raw))

listed-put_member :
    (j k v : Text) (raw : Raw)
    → equal j k ≡ false
    → listed j (keys_of (put_member k v raw)) ≡ listed j (keys_of raw)
unfolding put_member listed
listed-put_member j k v [] h = rw h refl
listed-put_member j k v ((l, w) ∷ raw) h =
    ground (arith, listed-put_member j k v raw h, equal_iff k l)

pub put_member-IsMap : (k v : Text) (raw : Raw) → IsMap raw → IsMap (put_member k v raw)
unfolding put_member listed
put_member-IsMap k v [] h = (refl, tt)
put_member-IsMap k v ((l, w) ∷ raw) (fresh, h) =
    ground
      (arith, put_member-IsMap k v raw h, listed-put_member l k v raw, equal_iff k l, equal_iff l k)

pub set_json-IsMap : (k : Text) (v : Option Text) (raw : Raw) → IsMap raw → IsMap (set_json k v raw)
unfolding set_json
set_json-IsMap k none raw h = h
set_json-IsMap k (some v) raw h = put_member-IsMap k _ raw h

pub config_key_order-Nodup : Nodup config_key_order
unfolding listed equal
config_key_order-Nodup = (refl, (refl, (refl, (refl, (refl, (refl, (refl, tt)))))))
