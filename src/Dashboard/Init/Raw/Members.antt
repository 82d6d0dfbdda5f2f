-- ===== src/Dashboard/Init/Raw/Members.antt =====
-- cmd/security-dashboard/init.go: the text of config.json, against the list of its members.
use audit_logging.Common.{
  ◌≡◌, ◌≤◌, refl, sym, ap, ap₂, ◌∙◌, arith, [], List, ◌∷◌, ◌++◌, map, Bool-cases, inl, inr, Option,
  none, some, if◌then◌else◌,
}
use audit_logging.Text.{Text, codes, equal}
use audit_logging.Text.Equal.{equal_iff}
use audit_logging.Dashboard.Init.Raw.{
  Raw, Printer, find_member, has_member, listed, keys_of, ordered_keys, config_key_order,
  member_text, members_text, ordered_json,
}
use audit_logging.Dashboard.Init.Raw.Laws.{
  count, count-ordered_keys, count-Nodup, listed-count, has_member-listed, IsMap,
  config_key_order-Nodup,
}

abbrev or_raw : Option Text → Text → Text
or_raw none s = s
or_raw (some t) s = t

-- A member on its line: the quoted key and the value, indented if it is JSON.
abbrev pub member_line : Printer → Text × Text → Text
member_line w (k, v) = codes "  " ++ (w.quote k ++ (codes ": " ++ or_raw (w.indent v) v))

-- The lines, with a comma behind each but the last.
unfoldable pub comma_lines : List Text → Text
comma_lines [] = []
comma_lines (s ∷ []) = s ++ codes "\n"
comma_lines (s ∷ t ∷ ss) = s ++ (codes ",\n" ++ comma_lines (t ∷ ss))

-- An object of these members.
abbrev pub object_text : Printer → Raw → Text
object_text w members = codes "{\n" ++ (comma_lines (map (member_line w) members) ++ codes "}\n")

abbrev pair_of : Raw → Text → Text × Text
pair_of raw k = (k, or_raw (find_member k raw) [])

-- The members by their keys.
abbrev pub members_by : Raw → List Text → Raw
members_by raw ks = map (pair_of raw) ks

-- The members that are written.
abbrev pub written_members : Raw → Raw
written_members raw = members_by raw (ordered_keys raw config_key_order)

module _ (w : Printer) (raw : Raw) where
  member_text-member_line : (k : Text) → member_text w raw k ≡ member_line w (pair_of raw k)
  unfolding member_text
  member_text-member_line k = ground arith

  members_text-comma_lines :
      (ks : List Text)
      → members_text w raw ks ≡ comma_lines (map (member_line w) (members_by raw ks))
  unfolding members_text comma_lines
  members_text-comma_lines [] = refl
  members_text-comma_lines (k ∷ []) = ap (λ s. s ++ codes "\n") (member_text-member_line k)
  members_text-comma_lines (k ∷ l ∷ ks) =
      ap₂ (λ s t. s ++ (codes ",\n" ++ t)) (member_text-member_line k)
        (members_text-comma_lines (l ∷ ks))

  pub ordered_json-object_text :
      ordered_json w raw config_key_order ≡ object_text w (written_members raw)
  unfolding ordered_json
  ordered_json-object_text =
      ap (λ s. codes "{\n" ++ (s ++ codes "}\n"))
        (members_text-comma_lines (ordered_keys raw config_key_order))

keys_of-members_by : (raw : Raw) (ks : List Text) → keys_of (members_by raw ks) ≡ ks
keys_of-members_by raw [] = refl
keys_of-members_by raw (k ∷ ks) = ap (◌∷◌ k) (keys_of-members_by raw ks)

find_member-members_by :
    (k : Text) (raw : Raw) (ks : List Text)
    → find_member k (members_by raw ks)
      ≡ (if listed k ks then some (or_raw (find_member k raw) []) else none)
unfolding find_member listed
find_member-members_by k raw [] = refl
find_member-members_by k raw (j ∷ js) = elim (Bool-cases (equal k j)) [
  | inl e ↦ rw e (ap (λ x. some (or_raw (find_member x raw) [])) (sym ((equal_iff k j).0 e)))
  | inr e ↦ rw e (find_member-members_by k raw js)
]

-- A member or none, by whether it is there.
found_or_none :
    (k : Text) (raw : Raw)
    → (if has_member k raw then some (or_raw (find_member k raw) []) else none) ≡ find_member k raw
unfolding has_member
found_or_none k raw = ground arith

listed-ordered_keys :
    (k : Text) (raw : Raw)
    → IsMap raw
    → listed k (ordered_keys raw config_key_order) ≡ has_member k raw
listed-ordered_keys k raw h = ground (
  arith,
  count-ordered_keys k raw config_key_order h config_key_order-Nodup,
  listed-count k (ordered_keys raw config_key_order),
  listed-count k (keys_of raw),
  has_member-listed k raw,
)

-- Every member of a map is written, and no other.
pub find_member-written_members :
    (k : Text) (raw : Raw) → IsMap raw → find_member k (written_members raw) ≡ find_member k raw
find_member-written_members k raw h =
    find_member-members_by k raw (ordered_keys raw config_key_order)
    ∙ rw (listed-ordered_keys k raw h) (found_or_none k raw)

-- No key is written twice.
pub count-written_members :
    (k : Text) (raw : Raw) → IsMap raw → count k (keys_of (written_members raw)) ≤ 1
count-written_members k raw h =
    let same = keys_of-members_by raw (ordered_keys raw config_key_order) in
    rw same (
      rw (count-ordered_keys k raw config_key_order h config_key_order-Nodup)
        (ground (arith, count-Nodup k (keys_of raw) h)))
