-- ===== src/Types/Value.antt =====
-- The dynamic values that cross into the library: what `typeof`, property access and `Object.keys`
-- see of them. Prototypes, getters and cycles are left out.
use Prim.Native.String.{String}
use text.Mathlib.Text.{◌==◌ as str_eq}
use react_native_sync_provid.Common.{
  ℕ, suc, Bool, true, false, not, ◌&&◌, List, [], ◌∷◌, if◌then◌else◌,
}
use react_native_sync_provid.Common.Text.{show}
use react_native_sync_provid.Types.Number.{Number}

mutual
  pub data Value : Type 0 where
    undefined : Value
    null : Value
    boolean : Bool → Value
    number : Number → Value
    string : String → Value
    object : Fields → Value
    array : Elements → Value
    function symbol bigint : Value

  pub data Fields : Type 0 where
    end : Fields
    field : String → Value → Fields → Fields

  pub data Elements : Type 0 where
    nil : Elements
    element : Value → Elements → Elements
    -- an array hole
    hole : Elements → Elements

abbrev pub type_of : Value → String
type_of undefined = "undefined"
type_of null = "object"
type_of (boolean b) = "boolean"
type_of (number n) = "number"
type_of (string s) = "string"
type_of (object fs) = "object"
type_of (array xs) = "object"
type_of function = "function"
type_of symbol = "symbol"
type_of bigint = "bigint"

-- The own enumerable properties in order: an array's keys are its indices, holes left out.
abbrev properties_of_fields : Fields → List (String × Value)
properties_of_fields end = []
properties_of_fields (field k v fs) = (k, v) ∷ properties_of_fields fs

abbrev properties_of_elements : ℕ → Elements → List (String × Value)
properties_of_elements i nil = []
properties_of_elements i (element v xs) = (show i, v) ∷ properties_of_elements (suc i) xs
properties_of_elements i (hole xs) = properties_of_elements (suc i) xs

abbrev pub properties : Value → List (String × Value)
properties (object fs) = properties_of_fields fs
properties (array xs) = properties_of_elements 0 xs
properties _ = []

unfoldable pub lookup : String → List (String × Value) → Value
lookup k [] = undefined
lookup k ((j, v) ∷ ps) = if str_eq j k then v else lookup k ps

-- `value.key`, on an object or an array.
unfoldable pub property : Value → String → Value
unfolding lookup
property v k = lookup k (properties v)

-- What iterating over an array with `entries()` visits: a hole reads as `undefined`.
abbrev pub elements : Elements → List Value
elements nil = []
elements (element v xs) = v ∷ elements xs
elements (hole xs) = undefined ∷ elements xs

-- `v !== undefined`, `v === null`, `typeof v === "string"`, `typeof v === "number"`, and
-- `typeof v !== "object" || v === null`.
abbrev pub is_defined : Value → Bool
is_defined undefined = false
is_defined _ = true

abbrev pub is_null : Value → Bool
is_null null = true
is_null _ = false

abbrev pub is_string : Value → Bool
is_string v = str_eq (type_of v) "string"

abbrev pub is_number : Value → Bool
is_number v = str_eq (type_of v) "number"

abbrev pub is_non_null_object : Value → Bool
is_non_null_object v = str_eq (type_of v) "object" && not (is_null v)
