-- ===== src/Headers.antt =====
-- HTTP headers as the panel edits them, a list of name and value, and as Xray's configuration has
-- them, an object: `XrayCommonClass.toHeaders` and `toV2Headers` (web/assets/js/model/inbound.js).
-- A header value that is an object is read through a numeric `length` property, if it has one.
pub mod LastWins
pub mod Grouped
pub mod Inherited
pub mod RoundTrip
use ax_ui.Common.{
  Bool, true, false, not, ◌&&◌, ◌||◌, String, List, [], ◌∷◌, ◌++◌, map, ◌==◌, if◌then◌else◌, ℕ,
  zero, suc, Result, ok, type_error, ◌>>=◌, ◌≡◌, arith, eq_iff,
}
use ax_ui.Common.Int.{pos}
use ax_ui.Js.{
  Value, undefined, null, bool, num, str, arr, obj, Values, nil, cons, Props, end, prop, truthy,
  elements, of_list, property, has_property, put, show_ℕ,
}
use ax_ui.ObjectUtil.{is_empty, own_props, contains}

-- An element of a `headers` list. The name is taken to be a text, as `toHeaders` makes it and the
-- page's input gives it; the source would take any value for it.
pub record Header : Type 0 where
  pub name : String
  pub value : Value

abbrev pub header : String → Value → Header
header k v = record { name = k; value = v }

abbrev indexed : Props → ℕ → ℕ → List Value
indexed ps i zero = []
indexed ps i (suc n) = property (show_ℕ i) ps ∷ indexed ps (suc i) n

abbrev indexed_to : Props → Value → List Value
indexed_to ps (num (pos n)) = indexed ps 0 n
indexed_to ps _ = []

-- `values[i]` for each `i` below `values.length`, where `values` is no string.
abbrev values_of : Value → Result (List Value)
values_of undefined = type_error
values_of null = type_error
values_of (arr vs) = ok (elements vs)
values_of (obj ps) = ok (indexed_to ps (property "length" ps))
values_of _ = ok []

-- The headers that one key of the object stands for.
abbrev headers_of_key : String → Value → Result (List Header)
headers_of_key k (str s) = ok (header k (str s) ∷ [])
headers_of_key k v = do vs ← values_of v; ok (map (header k) vs)

abbrev pub headers_of : Props → Result (List Header)
headers_of end = ok []
headers_of (prop k v ps) = do hs ← headers_of_key k v; rest ← headers_of ps; ok (hs ++ rest)

-- `toHeaders`
unfoldable pub to_headers : Value → Result (List Header)
to_headers v2_headers = if truthy v2_headers then headers_of (own_props v2_headers) else ok []

-- The names that every object has from `Object.prototype`: `name in {}` holds for them.
abbrev prototype_names : List String
prototype_names =
    "constructor" ∷ "__defineGetter__" ∷ "__defineSetter__" ∷ "hasOwnProperty" ∷ "__lookupGetter__"
    ∷ "__lookupSetter__" ∷ "isPrototypeOf" ∷ "propertyIsEnumerable" ∷ "toString" ∷ "valueOf"
    ∷ "__proto__" ∷ "toLocaleString" ∷ []

unfoldable pub inherited : String → Bool
inherited k = contains prototype_names k

-- `v2Headers[name].push(value)`; what is inherited has no `push`.
abbrev pub push_to : Value → Value → Result Value
push_to (arr vs) v = ok (arr (of_list (elements vs ++ v ∷ [])))
push_to _ v = type_error

-- `v2Headers[name] = value`, where assigning a text to `__proto__` has no effect.
abbrev assign : String → Value → Props → Props
assign k v ps = if k == "__proto__" then ps else put k v ps

-- A header without a name or a value is passed over.
abbrev pub is_blank : Header → Bool
is_blank h = h.name == "" || is_empty h.value

-- One round of the loop of `toV2Headers`.
unfoldable pub add_header : Bool → Header → Props → Result Props
add_header in_arrays h ps =
    if is_blank h
    then ok ps
    else if not (has_property h.name ps || inherited h.name)
    then ok (put h.name (if in_arrays then arr (cons h.value nil) else h.value) ps)
    else if in_arrays
    then (do v ← push_to (property h.name ps) h.value; ok (put h.name v ps))
    else ok (assign h.name h.value ps)

unfoldable pub add_headers : Bool → List Header → Props → Result Props
add_headers in_arrays [] ps = ok ps
add_headers in_arrays (h ∷ hs) ps = do qs ← add_header in_arrays h ps; add_headers in_arrays hs qs

-- `toV2Headers`
unfoldable pub to_v2_headers : List Header → Bool → Result Value
unfolding add_headers
to_v2_headers headers in_arrays = do ps ← add_headers in_arrays headers end; ok (obj ps)

-- A name that is not inherited is not `__proto__`.
pub inherited-proto : (k : String) → inherited k ≡ false → (k == "__proto__") ≡ false
unfolding inherited
inherited-proto k h = ground (arith, eq_iff k "__proto__", eq_iff "__proto__" k)
