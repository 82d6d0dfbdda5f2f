-- ===== src/Json.antt =====
-- The values that encoding/json decodes into `any`: a `map[string]any` is a list of its entries.
use audit_logging.Common.{Bool, List}
use audit_logging.Text.{Text}

-- A number is a float64, written as its shortest print.
mutual
  pub data Json : Type 0 where
    null : Json
    bool : Bool → Json
    num : Text → Json
    str : Text → Json
    arr : Items → Json
    obj : Fields → Json

  pub data Items : Type 0 where
    nil : Items
    cons : Json → Items → Items

  pub data Fields : Type 0 where
    end : Fields
    field : Text → Json → Fields → Fields

-- A value of type `map[string]any` that is not nil.
abbrev pub Object : Type 0
Object = List (Text × Json)
