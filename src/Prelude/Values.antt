-- ===== src/Prelude/Values.antt =====
-- The values of the dynamic language that reach the engine: JSON data, and any other object by
-- its type's name and its truth value, which is all that the engine asks of it.
use Prim.Native.Nat.{ℕ, zero, suc, ◌+◌, ◌/◌, ◌%◌}
use Prim.Native.String.{String}
use mathlib.Core.Bool.{Bool, true, false}
use mathlib.Core.List.{List, [], ◌∷◌}
use mathlib.Core.Option.{Option, none, some}
use text.Mathlib.Text.{◌==◌ as str_eq}
use navigator_orchestrator_a.Prelude.Tests.{if◌then◌else◌, ltb}
use navigator_orchestrator_a.Prelude.Texts.{non_empty, join}

mutual
  pub data Value : Type 0 where
    null : Value
    bool : Bool → Value
    -- an int from 0 on
    nat : ℕ → Value
    -- any other int, or a float: as `str` prints it, and whether it is not zero
    num : String → Bool → Value
    str : String → Value
    -- a list or a tuple
    arr : Items → Value
    obj : Fields → Value
    -- any other object: its type's name and its truth value
    other : String → Bool → Value

  pub data Items : Type 0 where
    nil : Items
    cons : Value → Items → Items

  pub data Fields : Type 0 where
    end : Fields
    field : String → Value → Fields → Fields

-- bool(value)
abbrev pub truthy : Value → Bool
truthy null = false
truthy (bool b) = b
truthy (nat n) = ltb 0 n
truthy (num s t) = t
truthy (str s) = non_empty s
truthy (arr nil) = false
truthy (arr (cons v vs)) = true
truthy (obj end) = false
truthy (obj (field k v fs)) = true
truthy (other s t) = t

-- fields.get(k)
unfoldable pub get_field : Fields → String → Option Value
get_field end k = none
get_field (field j v fs) k = if str_eq j k then some v else get_field fs k

-- The fields of an object whose keys and values these are.
unfoldable pub fields_of : List (String × Value) → Fields
fields_of [] = end
fields_of ((k, v) ∷ d) = field k v (fields_of d)

-- dict(fields), in order
unfoldable pub items_in : Fields → List (String × Value)
items_in end = []
items_in (field k v fs) = (k, v) ∷ items_in fs

unfoldable pub items_of : List Value → Items
items_of [] = nil
items_of (v ∷ vs) = cons v (items_of vs)

unfoldable pub length_items : Items → ℕ
length_items nil = 0
length_items (cons v vs) = suc (length_items vs)

unfoldable pub length_fields : Fields → ℕ
length_fields end = 0
length_fields (field k v fs) = suc (length_fields fs)

unfoldable pub field_names : Fields → List String
field_names end = []
field_names (field k v fs) = k ∷ field_names fs

-- The walk from a value along the keys.
unfoldable pub at_keys : List String → Value → Option Value
unfolding get_field
at_keys [] value = some value
at_keys (part ∷ parts) value = elim value [
  | obj fs ↦ elim (get_field fs part) [ none ↦ none | some v ↦ at_keys parts v ]
  | _ ↦ none
]

-- type(value).__name__, of what `json.loads` returns
unfoldable pub json_type : Value → String
json_type null = "NoneType"
json_type (bool b) = "bool"
json_type (nat n) = "int"
json_type (num s t) = "float"
json_type (str s) = "str"
json_type (arr vs) = "list"
json_type (obj fs) = "dict"
json_type (other name t) = name

digit : ℕ → String
digit zero = "0"
digit (suc zero) = "1"
digit (suc (suc zero)) = "2"
digit (suc (suc (suc zero))) = "3"
digit (suc (suc (suc (suc zero)))) = "4"
digit (suc (suc (suc (suc (suc zero))))) = "5"
digit (suc (suc (suc (suc (suc (suc zero)))))) = "6"
digit (suc (suc (suc (suc (suc (suc (suc zero))))))) = "7"
digit (suc (suc (suc (suc (suc (suc (suc (suc zero)))))))) = "8"
digit _ = "9"

-- The decimal digits; `fuel` above the number is enough, since each round divides it by ten.
digits : ℕ → ℕ → String
digits zero n = ""
digits (suc fuel) n =
    let front = digits fuel (n / 10) in if ltb n 10 then digit n else join front (digit (n % 10))

-- str(n)
unfoldable pub show_nat : ℕ → String
unfolding digit digits
show_nat n = digits (n + 1) n
