-- ===== src/Json.antt =====
-- The values that the configurations of Xray are made of, as `json` reads them, without
-- fractions, and what Python does with them.
use marzban.Common.{
  ℕ, suc, String, Bool, true, false, not, ◌&&◌, Option, none, some, str_eq, ◌==◌, if◌then◌else◌,
}
use marzban.Common.Text.{is_empty}

mutual
  pub data Json : Type 0 where
    null : Json
    boolean : Bool → Json
    number : ℕ → Json
    text : String → Json
    array : Values → Json
    object : Fields → Json

  pub data Values : Type 0 where
    no_values : Values
    value : Json → Values → Values

  -- A dict, in the order of its keys.
  pub data Fields : Type 0 where
    no_fields : Fields
    field : String → Json → Fields → Fields

-- `content.get(key)`
unfoldable pub get : String → Fields → Option Json
get key no_fields = none
get key (field k v fields) = let rest = get key fields in if str_eq k key then some v else rest

-- `content[key] = v`: where the key stands, or as the last key.
unfoldable pub set : String → Json → Fields → Fields
set key v no_fields = field key v no_fields
set key v (field k w fields) =
    let rest = field k w (set key v fields) in if str_eq k key then field k v fields else rest

-- `bool(v)`
unfoldable pub truthy : Json → Bool
truthy null = false
truthy (boolean b) = b
truthy (number n) = not (n == 0)
truthy (text s) = not (is_empty s)
truthy (array no_values) = false
truthy (array (value v l)) = true
truthy (object no_fields) = false
truthy (object (field k v l)) = true

-- `bool(content.get(key))`
unfoldable pub truthy_at : String → Fields → Bool
unfolding get truthy
truthy_at key fields = elim (get key fields) [ none ↦ false | some v ↦ truthy v ]

abbrev pub size : Fields → ℕ
size no_fields = 0
size (field k v l) = suc (size l)

-- `True == 1`, `False == 0`
abbrev pub as_number : Bool → ℕ
as_number true = 1
as_number false = 0

-- `==` of two values: of two dicts, whatever the order of their keys.
unfoldable mutual
  unfolding get

  pub json_eq : Json → Json → Bool
  json_eq null null = true
  json_eq (boolean a) (boolean b) = as_number a == as_number b
  json_eq (boolean a) (number n) = as_number a == n
  json_eq (number n) (boolean a) = as_number a == n
  json_eq (number n) (number m) = n == m
  json_eq (text s) (text t) = str_eq s t
  json_eq (array a) (array b) = values_eq a b
  json_eq (object a) (object b) = (size a == size b) && fields_in a b
  json_eq _ _ = false

  pub values_eq : Values → Values → Bool
  values_eq no_values no_values = true
  values_eq (value v a) (value w b) = json_eq v w && values_eq a b
  values_eq _ _ = false

  pub fields_in : Fields → Fields → Bool
  fields_in no_fields b = true
  fields_in (field k v a) b = elim (get k b) [
    | none ↦ false
    | some w ↦ json_eq v w && fields_in a b
  ]
