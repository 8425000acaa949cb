-- ===== src/Js.antt =====
-- The JavaScript values that the front end's classes hold (web/assets/js/), and the operations of
-- the language that they use: property access, truthiness, `String(v)`, `join` and `split`.
-- A number is an integer; an object is the list of its own properties in insertion order.
pub mod Json
pub mod Text
pub mod Joined
pub mod Operators
pub mod Lookup
pub mod Append
pub mod Elements
pub mod Arrays
pub mod Given
pub mod KeyOrder
pub mod Part
pub mod Index
use ax_ui.Common.{
  ℕ, zero, suc, ◌/◌, ◌%◌, String, Bool, true, false, not, ◌&&◌, List, [], ◌∷◌, Option, none, some,
  ltb, eqb, ◌==◌, if◌then◌else◌, get_elem?, Result, ok, type_error, ◌≡◌,
}
use ax_ui.Common.Int.{ℤ, pos, negsuc}
use Prim.Native.String.{◌++◌}
use mathlib.Core.Option.{get_or}

mutual
  pub data Value : Type 0 where
    undefined null : Value
    bool : Bool → Value
    num : ℤ → Value
    str : String → Value
    arr : Values → Value
    obj : Props → Value

  pub data Values : Type 0 where
    nil : Values
    cons : Value → Values → Values

  pub data Props : Type 0 where
    end : Props
    prop : String → Value → Props → Props

abbrev pub nat : ℕ → Value
nat n = num (pos n)

abbrev pub elements : Values → List Value
elements nil = []
elements (cons v vs) = v ∷ elements vs

abbrev pub of_list : List Value → Values
of_list [] = nil
of_list (v ∷ vs) = cons v (of_list vs)

abbrev pub strings : List String → Values
strings [] = nil
strings (s ∷ ss) = cons (str s) (strings ss)

abbrev pub is_undefined : Value → Bool
is_undefined undefined = true
is_undefined _ = false

-- `v == null`
abbrev pub is_nullish : Value → Bool
is_nullish undefined = true
is_nullish null = true
is_nullish _ = false

abbrev pub is_string : Value → Bool
is_string (str s) = true
is_string _ = false

-- `Array.isArray(v)`
abbrev pub is_array : Value → Bool
is_array (arr vs) = true
is_array _ = false

-- `!!v`
abbrev pub truthy : Value → Bool
truthy undefined = false
truthy null = false
truthy (bool b) = b
truthy (num (pos zero)) = false
truthy (num _) = true
truthy (str s) = not (s == "")
truthy (arr vs) = true
truthy (obj ps) = true

-- `v === 'text'`
abbrev pub equals_text : Value → String → Bool
equals_text (str s) t = s == t
equals_text _ t = false

-- `a || b`
abbrev pub or_value : Value → Value → Value
or_value a b = if truthy a then a else b

-- A parameter's default value stands in for `undefined`, and for nothing else.
abbrev pub default : Value → Value → Value
default d undefined = d
default d v = v

-- The own property of a name, `undefined` where there is none.
abbrev pub property : String → Props → Value
property k end = undefined
property k (prop j v ps) = if j == k then v else property k ps

abbrev pub has_property : String → Props → Bool
has_property k end = false
has_property k (prop j v ps) = if j == k then true else has_property k ps

-- `v.name` for the names that the classes read: a primitive and an array have none of them.
abbrev pub reader : Value → Result (String → Value)
reader undefined = type_error
reader null = type_error
reader (obj ps) = ok (λ k. property k ps)
reader _ = ok (λ k. undefined)

-- `'key' in v`, for a key that no object inherits.
abbrev pub in_value : String → Value → Result Bool
in_value k (obj ps) = ok (has_property k ps)
in_value k (arr vs) = ok false
in_value k _ = type_error

-- `obj.key = v` on an object whose own properties are given.
abbrev pub put : String → Value → Props → Props
put k v end = prop k v end
put k v (prop j w ps) = if j == k then prop k v ps else prop j w (put k v ps)

abbrev pub keys : Props → List String
keys end = []
keys (prop k v ps) = k ∷ keys ps

-- An object has each key once.
abbrev pub distinct_keys : Props → Bool
distinct_keys end = true
distinct_keys (prop k v ps) = not (has_property k ps) && distinct_keys ps

-- An object literal.
abbrev pub entries : List (String × Value) → Props
entries [] = end
entries ((k, v) ∷ kvs) = prop k v (entries kvs)

digit : ℕ → String
digit n = get_or (get_elem? ("0" ∷ "1" ∷ "2" ∷ "3" ∷ "4" ∷ "5" ∷ "6" ∷ "7" ∷ "8" ∷ "9" ∷ []) n) ""

decimal : ℕ → ℕ → String
decimal zero n = ""
decimal (suc fuel) n =
    let front = decimal fuel (n / 10) in if ltb n 10 then digit n else front ++ digit (n % 10)

-- The decimal digits of a number; `suc n` rounds are enough, as each divides by ten.
unfoldable pub show_ℕ : ℕ → String
unfolding decimal digit
show_ℕ n = decimal (suc n) n

unfoldable pub show_ℤ : ℤ → String
unfolding show_ℕ
show_ℤ (pos n) = show_ℕ n
show_ℤ (negsuc n) = "-" ++ show_ℕ (suc n)

-- `String(v)`; `join` writes `null` and `undefined` as nothing.
unfoldable mutual
  unfolding show_ℤ

  pub to_text : Value → String
  to_text undefined = "undefined"
  to_text null = "null"
  to_text (bool true) = "true"
  to_text (bool false) = "false"
  to_text (num z) = show_ℤ z
  to_text (str s) = s
  to_text (arr vs) = join_text "," vs
  to_text (obj ps) = "[object Object]"

  pub join_text : String → Values → String
  join_text sep nil = ""
  join_text sep (cons v vs) = item_text v ++ join_rest sep vs

  pub join_rest : String → Values → String
  join_rest sep nil = ""
  join_rest sep (cons v vs) = sep ++ (item_text v ++ join_rest sep vs)

  pub item_text : Value → String
  item_text undefined = ""
  item_text null = ""
  item_text (bool true) = "true"
  item_text (bool false) = "false"
  item_text (num z) = show_ℤ z
  item_text (str s) = s
  item_text (arr vs) = join_text "," vs
  item_text (obj ps) = "[object Object]"

-- `v == 'text'`, for a text that is no number.
abbrev pub equals_loose : Value → String → Bool
equals_loose (str s) t = s == t
equals_loose (arr vs) t = to_text (arr vs) == t
equals_loose (obj ps) t = "[object Object]" == t
equals_loose _ t = false
