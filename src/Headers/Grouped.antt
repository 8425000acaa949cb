-- ===== src/Headers/Grouped.antt =====
-- `toV2Headers(headers)` (web/assets/js/model/inbound.js): an array of values for each name.
use ax_ui.Common.{
  ◌≡◌, refl, ap, sym, ◌∙◌, Bool, true, false, not, ◌&&◌, String, List, [], ◌∷◌, ◌++◌, ◌==◌,
  if◌then◌else◌, arith, eq_iff, ok, all, Bool-cases, inl, inr,
}
use mathlib.Core.List.{append_assoc, append-nil}
use ax_ui.Js.{
  Value, undefined, arr, obj, Values, nil, cons, Props, end, prop, property, has_property, put,
  elements, of_list, is_array,
}
use ax_ui.Js.Elements.{elements-of_list, of_list-elements}
use ax_ui.Js.Json.{property-absent}
use ax_ui.Js.Lookup.{property-put}
use ax_ui.Headers.{Header, is_blank, inherited, add_header, add_headers, to_v2_headers}
use ax_ui.Headers.LastWins.{is_own_name}

-- The values of the headers of a name, in order, without those that are passed over.
abbrev pub values_for : String → List Header → List Value
values_for k [] = []
values_for k (h ∷ hs) =
    let rest = values_for k hs in if h.name == k && not (is_blank h) then h.value ∷ rest else rest

-- The property that stands for the values of a name.
abbrev pub grouped : List Value → Value
grouped [] = undefined
grouped (v ∷ vs) = arr (of_list (v ∷ vs))

abbrev append_value : Value → Value → Value
append_value (arr vs) v = arr (of_list (elements vs ++ v ∷ []))
append_value _ v = arr (cons v nil)

abbrev add_value : Header → Props → Props
add_value h ps =
    if is_blank h then ps else put h.name (append_value (property h.name ps) h.value) ps

abbrev group : List Header → Props → Props
group [] ps = ps
group (h ∷ hs) ps = group hs (add_value h ps)

abbrev all_arrays : Props → Bool
all_arrays end = true
all_arrays (prop k v ps) = is_array v && all_arrays ps

array_property :
    (k : String) (ps : Props)
    → all_arrays ps ≡ true
    → has_property k ps ≡ true
    → (vs : Values) × (property k ps ≡ arr vs)
array_property k end a h = cc
array_property k (prop j (arr vs) ps) a h = elim (Bool-cases (j == k)) [
  | inl y ↦ (vs, rw y)
  | inr n ↦ let (ws, e) = array_property k ps a (rw n at h) in (ws, rw n e)
]
array_property k (prop j _ ps) a h = cc

all_arrays-put :
    (k : String) (vs : Values) (ps : Props)
    → all_arrays ps ≡ true
    → all_arrays (put k (arr vs) ps) ≡ true
all_arrays-put k vs end a = refl
all_arrays-put k vs (prop j w ps) a = ground (arith, all_arrays-put k vs ps)

append_value_array : (v w : Value) → (vs : Values) × (append_value v w ≡ arr vs)
append_value_array (arr vs) w = (_, refl)
append_value_array _ w = (_, refl)

all_arrays-add_value :
    (h : Header) (ps : Props) → all_arrays ps ≡ true → all_arrays (add_value h ps) ≡ true
all_arrays-add_value h ps a =
    let (vs, e) = append_value_array (property h.name ps) h.value in
    ground (arith, e, all_arrays-put h.name vs ps)

add_header_array :
    (h : Header) (ps : Props)
    → inherited h.name ≡ false
    → all_arrays ps ≡ true
    → add_header true h ps ≡ ok (add_value h ps)
unfolding add_header
add_header_array h ps i a = elim (Bool-cases (has_property h.name ps)) [
  | inl y ↦ let (vs, e) = array_property h.name ps a y in ground (arith, e)
  | inr n ↦ ground (arith, property-absent h.name ps n)
]

add_headers-group :
    (hs : List Header) (ps : Props)
    → all is_own_name hs ≡ true
    → all_arrays ps ≡ true
    → add_headers true hs ps ≡ ok (group hs ps)
unfolding add_headers
add_headers-group [] ps e a = refl
add_headers-group (h ∷ hs) ps e a =
    rw (add_header_array h ps (ground arith) a)
      (add_headers-group hs (add_value h ps) (ground arith) (all_arrays-add_value h ps a))

abbrev gather : String → List Header → Value → Value
gather k [] v = v
gather k (h ∷ hs) v =
    gather k hs (if h.name == k && not (is_blank h) then append_value v h.value else v)

property-group :
    (k : String) (hs : List Header) (ps : Props)
    → property k (group hs ps) ≡ gather k hs (property k ps)
property-group k [] ps = refl
property-group k (h ∷ hs) ps =
    property-group k hs (add_value h ps)
    ∙ ap (gather k hs) (
        ground (
          arith,
          eq_iff h.name k,
          property-put h.name k (append_value (property h.name ps) h.value) ps,
        ))

gather_array :
    (k : String) (hs : List Header) (vs : Values)
    → gather k hs (arr vs) ≡ arr (of_list (elements vs ++ values_for k hs))
gather_array k [] vs = ap arr (sym (rw append-nil (of_list-elements vs)))
gather_array k (h ∷ hs) vs = elim (Bool-cases (h.name == k && not (is_blank h))) [
  | inl y ↦ rw y (
      gather_array k hs (of_list (elements vs ++ h.value ∷ []))
      ∙ rw (elements-of_list (elements vs ++ h.value ∷ []), append_assoc) refl)
  | inr n ↦ rw n (gather_array k hs vs)
]

gather_undefined :
    (k : String) (hs : List Header) → gather k hs undefined ≡ grouped (values_for k hs)
gather_undefined k [] = refl
gather_undefined k (h ∷ hs) =
    ground (arith, gather_undefined k hs, gather_array k hs (cons h.value nil))

-- Where no name is one that every object inherits, the call succeeds, and each name has the array of
-- the values of its headers in order, those with an empty name or value left out, or no value.
pub to_v2_headers-grouped :
    (hs : List Header)
    → all is_own_name hs ≡ true
    → (ps : Props) × (to_v2_headers hs true ≡ ok (obj ps))
      × ((k : String) → property k ps ≡ grouped (values_for k hs))
unfolding to_v2_headers
to_v2_headers-grouped hs e = (
  group hs end,
  rw (add_headers-group hs end e refl),
  λ k. property-group k hs end ∙ gather_undefined k hs,
)
