-- ===== src/Ovs/Values.antt =====
-- The values of type interface{} that pkg/ovs/ovs-client.go reads and writes, its type assertions and
-- indices, which panic where they do not fit, and makeOVSDBSetFromList and buildMapFromOVSDBMap.
use ciccni.Base.{
  ℕ, zero, suc, String, Bool, false, List, [], ◌∷◌, Dict, insert, string_eq, ◌==◌, if◌then◌else◌,
  Outcome, ok, panic,
}
use ciccni.Base.Partial.{◌>>=◌}

-- `number` is a float64 of an integer, by a natural number that is the integer modulo 2^32: 2^32 - 1
-- is -1. The conversion to int32 keeps the remainder, the 32-bit pattern. `texts` is a []string, `array` a []interface{}, and `object` a map[string]interface{}
mutual
  pub data Fields : Type 0 where
    field : (key : String) (value : Value) (rest : Fields) → Fields
    no_fields : Fields

  pub data Items : Type 0 where
    item : (first : Value) (rest : Items) → Items
    no_items : Items

  pub data Value : Type 0 where
    object : Fields → Value
    array : Items → Value
    texts : List String → Value
    number : ℕ → Value
    text : String → Value
    null : Value

abbrev pub items : List Value → Items
items [] = no_items
items (v ∷ vs) = item v (items vs)

abbrev pub fields : Dict String Value → Fields
fields [] = no_fields
fields ((k, v) ∷ m) = field k v (fields m)

-- m[k], nil if the key is missing; a nil map has no key
unfoldable pub column : String → Fields → Value
column k no_fields = null
column k (field j v m) = if k == j then v else column k m

-- v.(string), v.([]interface{}) and v.(map[string]interface{})
abbrev pub as_text : Value → Outcome String
as_text (text s) = ok s
as_text _ = panic

abbrev pub as_items : Value → Outcome Items
as_items (array vs) = ok vs
as_items _ = panic

abbrev pub as_fields : Value → Outcome Fields
as_fields (object m) = ok m
as_fields _ = panic

-- vs[n], of a []interface{} and of any other slice
abbrev pub item_at : ℕ → Items → Outcome Value
item_at n no_items = panic
item_at zero (item v vs) = ok v
item_at (suc n) (item v vs) = item_at n vs

abbrev pub element_at {ℓ} : {A : Type ℓ} → ℕ → List A → Outcome A
element_at n [] = panic
element_at zero (x ∷ xs) = ok x
element_at (suc n) (x ∷ xs) = element_at n xs

-- v == "map"
abbrev is_text : String → Value → Bool
is_text s (text t) = t == s
is_text s _ = false

-- row["_uuid"].([]interface{})[1].(string)
unfoldable pub row_uuid : Fields → Outcome String
unfolding column
row_uuid row = do uuid ← as_items (column "_uuid" row); second ← item_at 1 uuid; as_text second

unfoldable pub make_ovsdb_set_from_list : List String → Items
make_ovsdb_set_from_list list = item (text "set") (item (texts list) no_items)

-- the loop of buildMapFromOVSDBMap
unfoldable pub add_pairs : Items → Dict String String → Outcome (Dict String String)
add_pairs no_items ret = ok ret
add_pairs (item pair pairs) ret = do
  both ← as_items pair
  first ← item_at 0 both
  key ← as_text first
  second ← item_at 1 both
  value ← as_text second
  add_pairs pairs (insert key value ret)

unfoldable pub map_pairs : Items → Outcome (Dict String String)
unfolding add_pairs
map_pairs vs = do second ← item_at 1 vs; pairs ← as_items second; add_pairs pairs []

unfoldable pub build_map_from_ovsdb_map : Items → Outcome (Dict String String)
unfolding map_pairs
build_map_from_ovsdb_map vs = do
  first ← item_at 0 vs
  if is_text "map" first then map_pairs vs else ok []
