-- ===== src/Dashboard/Init/Raw.antt =====
-- cmd/security-dashboard/init.go: the members of config.json as they stand in the file, and its text.
pub mod Laws
pub mod Members
use audit_logging.Common.{
  [], List, ◌∷◌, ◌++◌, map, Bool, true, false, not, ◌||◌, Option, none, some, select, if◌then◌else◌,
}
use audit_logging.Text.{Text, codes, equal}
use audit_logging.Text.Space.{trim_space}
use audit_logging.Text.Order.{sort_texts}

-- A value of type map[string]json.RawMessage.
abbrev pub Raw : Type 0
Raw = List (Text × Text)

-- raw[k]
unfoldable pub find_member : Text → Raw → Option Text
find_member k [] = none
find_member k ((j, v) ∷ raw) = let rest = find_member k raw in if equal k j then some v else rest

-- raw[k] = v
unfoldable pub put_member : Text → Text → Raw → Raw
put_member k v [] = (k, v) ∷ []
put_member k v ((j, w) ∷ raw) =
    let rest = put_member k v raw in if equal k j then (k, v) ∷ raw else (j, w) ∷ rest

abbrev is_some : Option Text → Bool
is_some none = false
is_some (some v) = true

-- _, ok := raw[k]
unfoldable pub has_member : Text → Raw → Bool
has_member k raw = is_some (find_member k raw)

-- setJSON, of the text that the encoder gives for the value
unfoldable pub set_json : Text → Option Text → Raw → Raw
set_json k none raw = raw
set_json k (some v) raw = put_member k (trim_space v) raw

-- configKeyOrder
abbrev pub config_key_order : List Text
config_key_order =
    codes "app"
    ∷ codes "manualDoc"
    ∷ codes "standards"
    ∷ codes "asvs"
    ∷ codes "conformance"
    ∷ codes "complianceDocs"
    ∷ codes "checks"
    ∷ []

-- slices.Contains
unfoldable pub listed : Text → List Text → Bool
listed k [] = false
listed k (j ∷ js) = equal k j || listed k js

abbrev pub keys_of : Raw → List Text
keys_of [] = []
keys_of ((k, v) ∷ raw) = k ∷ keys_of raw

-- `keys`: those of the order that are there, and then the others
unfoldable pub ordered_keys : Raw → List Text → List Text
ordered_keys raw order =
    select (λ k. has_member k raw) order
    ++ sort_texts (select (λ k. not (listed k order)) (keys_of raw))

-- The verb %q and json.Indent, which fails on what is no JSON.
pub record Printer : Type 0 where
  pub quote : Text → Text
  pub indent : Text → Option Text

abbrev or_text : Option Text → Text → Text
or_text none s = s
or_text (some t) s = t

module _ (w : Printer) (raw : Raw) where
  -- one member on its line
  unfoldable pub member_text : Text → Text
  member_text k =
      let v = or_text (find_member k raw) [] in
      codes "  " ++ (w.quote k ++ (codes ": " ++ or_text (w.indent v) v))

  unfoldable pub members_text : List Text → Text
  unfolding member_text
  members_text [] = []
  members_text (k ∷ []) = member_text k ++ codes "\n"
  members_text (k ∷ l ∷ ks) = member_text k ++ (codes ",\n" ++ members_text (l ∷ ks))

  -- the text that writeOrderedJSON writes
  unfoldable pub ordered_json : List Text → Text
  ordered_json order = codes "{\n" ++ (members_text (ordered_keys raw order) ++ codes "}\n")
