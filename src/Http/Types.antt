-- ===== src/Http/Types.antt =====
-- The values that cross the network, and what is thrown.
use net_test_toy.Base.{
  Bool, List, Option, String, [], false, if◌then◌else◌, none, not, some, true, ◌<>◌, ◌==◌, ◌∷◌,
}

mutual
  -- A number is given by its text.
  pub data Json : Type 0 where
    null : Json
    boolean : Bool → Json
    number : String → Json
    text : String → Json
    array : Items → Json
    object : Fields → Json

  pub data Items : Type 0 where
    nil : Items
    item : Json → Items → Items

  pub data Fields : Type 0 where
    empty : Fields
    field : String → Json → Fields → Fields

-- What is thrown: an `Error`, or another value by its text.
pub data Fault : Type 0 where
  error : (name message : String) → Fault
  other : (shown : String) → Fault

-- How an asynchronous call ends.
pub data Outcome (A : Type 0) : Type 0 where
  returned : A → Outcome A
  thrown : Fault → Outcome A

-- A call of `fetchWrapper`. `query` has the pairs of a `URLSearchParams` that ends the URL.
pub record Request : Type 0 where
  pub method : String
  pub url : String
  pub query : List (String × String)
  pub body : Option Json

-- `error instanceof Error ? error.message : fallback`
abbrev pub message_or : String → Fault → String
message_or fallback (error name message) = message
message_or fallback (other shown) = fallback

abbrev pub is_returned : {A : Type 0} → Outcome A → Bool
is_returned (returned a) = true
is_returned (thrown f) = false

-- `v || …`: the values that count as missing.
abbrev pub falsy : Json → Bool
falsy null = true
falsy (boolean b) = not b
falsy (number n) = n == "0"
falsy (text s) = s == ""
falsy (array xs) = false
falsy (object fs) = false

abbrev pub json_or : Json → Option Json → Json
json_or d none = d
json_or d (some v) = if falsy v then d else v

abbrev pub get_field : String → Fields → Option Json
get_field k empty = none
get_field k (field j v fs) = if j == k then some v else get_field k fs

abbrev read_fault : String → Fault
read_fault k = error "TypeError" ("Cannot read properties of null (reading '" <> k <> "')")

-- `JSON.stringify` leaves out a field that is `undefined`.
abbrev pub fields : List (String × Option Json) → Fields
fields [] = empty
fields ((k, none) ∷ ps) = fields ps
fields ((k, some v) ∷ ps) = field k v (fields ps)

-- `v.k` for a name that texts, numbers and arrays do not have
abbrev pub read : String → Json → Outcome (Option Json)
read k null = thrown (read_fault k)
read k (object fs) = returned (get_field k fs)
read k _ = returned none

abbrev pub and_then : {A B : Type 0} → Outcome A → (A → Outcome B) → Outcome B
and_then (returned a) k = k a
and_then (thrown f) k = thrown f

unfoldable mutual
  -- `String(v)`
  pub show : Json → String
  show null = "null"
  show (boolean b) = if b then "true" else "false"
  show (number n) = n
  show (text s) = s
  show (array xs) = show_items xs
  show (object fs) = "[object Object]"

  show_items : Items → String
  show_items nil = ""
  show_items (item v nil) = show_item v
  show_items (item v (item w xs)) = show_item v <> "," <> show_items (item w xs)

  -- An item that is `null` is printed as the empty text.
  show_item : Json → String
  show_item null = ""
  show_item (boolean b) = if b then "true" else "false"
  show_item (number n) = n
  show_item (text s) = s
  show_item (array xs) = show_items xs
  show_item (object fs) = "[object Object]"

-- A value in a template text; a missing one is `undefined`.
abbrev pub show_option : Option Json → String
show_option none = "undefined"
show_option (some v) = show v
