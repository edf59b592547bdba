-- ===== src/Json.antt =====
-- The document type of the source (`nlohmann::json`), as far as the program looks into it:
-- src/runtime/expressions/Value.hpp and src/util/JsonPath.cpp read its constructors.
use sapo_engine.Prelude.{ℕ, String, Bool, if◌then◌else◌, str_eq}
use sapo_engine.Prelude.Int.{ℤ}

-- A double is named by its 64-bit pattern; an object keeps its entries by key.
mutual
  pub data Json : Type 0 where
    null : Json
    boolean : Bool → Json
    number_integer : ℤ → Json
    number_float : ℕ → Json
    string : String → Json
    array : Items → Json
    object : Fields → Json

  pub data Items : Type 0 where
    nil : Items
    cons : Json → Items → Items

  pub data Fields : Type 0 where
    end : Fields
    field : String → Json → Fields → Fields

-- `fields[key] = value`
unfoldable pub set_field : String → Json → Fields → Fields
set_field key v end = field key v end
set_field key v (field k w rest) =
    if str_eq k key then field k v rest else field k w (set_field key v rest)

-- `value[key] = v` on an object or on null, which becomes an object. It throws on other values: the
-- caller tests for them.
unfoldable pub set_member : String → Json → Json → Json
unfolding set_field
set_member key v (object fs) = object (set_field key v fs)
set_member key v null = object (field key v end)
set_member key v other = other
