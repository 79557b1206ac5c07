-- ===== src/Payload/Json.antt =====
-- The values `JSON.parse` returns, and what normalize.ts reads of them. A number is a double: a
-- binary fraction `mantissa / 2 ^ shift` with a sign, an infinity or NaN. The members of an object
-- are in its enumeration order, with distinct keys.
pub mod Depth
use simple_rss_notifications.Base.{
  ℕ, zero, suc, ◌+◌, max, Bool, true, false, Option, none, some, List, [], ◌∷◌, ◌++◌, Text,
  if◌then◌else◌,
}
use simple_rss_notifications.Base.Strings.{codes, text_eq, trim}

pub data Number : Type 0 where
  finite : (negative : Bool) (mantissa shift : ℕ) → Number
  infinite : (negative : Bool) → Number
  nan : Number

mutual
  pub data Json : Type 0 where
    null : Json
    boolean : Bool → Json
    number : Number → Json
    string : Text → Json
    array : Items → Json
    object : Fields → Json

  pub data Items : Type 0 where
    nil : Items
    cons : Json → Items → Items

  pub data Fields : Type 0 where
    end : Fields
    field : Text → Json → Fields → Fields

unfoldable pub elements : Items → List Json
elements nil = []
elements (cons v vs) = v ∷ elements vs

-- `Object.values`
unfoldable pub member_values : Fields → List Json
member_values end = []
member_values (field k v fs) = v ∷ member_values fs

-- `o[k]`, `none` for undefined.
unfoldable pub member : Text → Fields → Option Json
member k end = none
member k (field j v fs) = let rest = member k fs in if text_eq j k then some v else rest

-- `typeof v === 'object' && v !== null`
abbrev pub is_container : Json → Bool
is_container (array vs) = true
is_container (object fs) = true
is_container _ = false

-- How deep arrays and objects nest, by recursion.
unfoldable mutual
  pub depth : Json → ℕ
  depth null = 0
  depth (boolean b) = 0
  depth (number n) = 0
  depth (string s) = 0
  depth (array vs) = suc (items_depth vs)
  depth (object fs) = suc (fields_depth fs)

  pub items_depth : Items → ℕ
  items_depth nil = 0
  items_depth (cons v vs) = max (depth v) (items_depth vs)

  pub fields_depth : Fields → ℕ
  fields_depth end = 0
  fields_depth (field k v fs) = max (depth v) (fields_depth fs)

-- How many values a value is made of, itself included.
unfoldable mutual
  pub size : Json → ℕ
  size null = 1
  size (boolean b) = 1
  size (number n) = 1
  size (string s) = 1
  size (array vs) = suc (items_size vs)
  size (object fs) = suc (fields_size fs)

  pub items_size : Items → ℕ
  items_size nil = 0
  items_size (cons v vs) = size v + items_size vs

  pub fields_size : Fields → ℕ
  fields_size end = 0
  fields_size (field k v fs) = size v + fields_size fs
