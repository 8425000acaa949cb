-- ===== src/Headers/RoundTrip.antt =====
-- Headers through `toV2Headers`, JSON and `toHeaders` (web/assets/js/model/inbound.js).
use ax_ui.Common.{
  ◌≡◌, refl, ap, sym, ◌∙◌, Bool, true, false, not, ◌&&◌, String, List, [], ◌∷◌, ◌==◌, arith, ok,
  any, map,
}
use ax_ui.Js.{Value, arr, obj, nil, cons, Props, end, prop, has_property, is_string}
use ax_ui.Js.Json.{erase, is_json, erase-is_json}
use ax_ui.Js.KeyOrder.{in_key_order}
use ax_ui.Js.Append.{
  append_props, append_props_assoc, append_props-end, put_new, are_apart, are_apart-append,
  are_apart-end,
}
use ax_ui.Headers.{
  Header, is_blank, inherited, headers_of, to_headers, add_header, add_headers, to_v2_headers,
}

abbrev named : String → List Header → Bool
named k hs = any (λ h. h.name == k) hs

-- Headers with texts for values, no blank one, no inherited name, and each name once.
abbrev are_distinct : List Header → Bool
are_distinct [] = true
are_distinct (h ∷ hs) =
    (is_string h.value && not (is_blank h))
    && (not (inherited h.name) && (not (named h.name hs) && are_distinct hs))

-- Such headers, with the names in an order that JavaScript keeps.
abbrev pub are_plain : List Header → Bool
are_plain hs = are_distinct hs && in_key_order (map (λ h. h.name) hs)

abbrev held : Bool → Value → Value
held true v = arr (cons v nil)
held false v = v

abbrev table : Bool → List Header → Props
table b [] = end
table b (h ∷ hs) = prop h.name (held b h.value) (table b hs)

has_property-table :
    (b : Bool) (k : String) (hs : List Header) → has_property k (table b hs) ≡ named k hs
has_property-table b k [] = refl
has_property-table b k (h ∷ hs) = ground (arith, has_property-table b k hs)

add_header_new :
    (b : Bool) (h : Header) (ps : Props)
    → is_blank h ≡ false
    → inherited h.name ≡ false
    → has_property h.name ps ≡ false
    → add_header b h ps ≡ ok (append_props ps (prop h.name (held b h.value) end))
unfolding add_header
add_header_new true h ps e i n = ground (arith, put_new h.name (arr (cons h.value nil)) ps)
add_header_new false h ps e i n = ground (arith, put_new h.name h.value ps)

add_headers-table :
    (b : Bool) (hs : List Header) (ps : Props)
    → are_distinct hs ≡ true
    → are_apart (table b hs) ps ≡ true
    → add_headers b hs ps ≡ ok (append_props ps (table b hs))
unfolding add_headers
add_headers-table b [] ps p a = ap ok (sym (append_props-end ps))
add_headers-table b (h ∷ hs) ps p a =
    rw (add_header_new b h ps (ground arith) (ground arith) (ground arith)) (
      add_headers-table b hs (append_props ps (prop h.name (held b h.value) end)) (ground arith) (
        are_apart-append (table b hs) ps h.name (held b h.value) (ground arith)
          (ground (arith, has_property-table b h.name hs)))
      ∙ ap ok (append_props_assoc ps (prop h.name (held b h.value) end) (table b hs)))

pub to_v2_headers-plain :
    (b : Bool) (hs : List Header)
    → are_distinct hs ≡ true
    → to_v2_headers hs b ≡ ok (obj (table b hs))
unfolding to_v2_headers
to_v2_headers-plain b hs p = rw (add_headers-table b hs end p (are_apart-end (table b hs)))

headers_of-table :
    (b : Bool) (hs : List Header) → are_distinct hs ≡ true → headers_of (table b hs) ≡ ok hs
headers_of-table b [] p = refl
headers_of-table true (h ∷ hs) p = rw (headers_of-table true hs (ground arith))
headers_of-table false (h ∷ hs) p = ground (arith, headers_of-table false hs)

is_json-table :
    (b : Bool) (hs : List Header) → are_distinct hs ≡ true → is_json (obj (table b hs)) ≡ true
unfolding is_json
is_json-table b [] p = refl
is_json-table true (h ∷ hs) p = ground (arith, is_json-table true hs)
is_json-table false (h ∷ hs) p = ground (arith, is_json-table false hs)

table_back :
    (b : Bool) (hs : List Header)
    → are_distinct hs ≡ true
    → (v : Value) × (to_v2_headers hs b ≡ ok v) × (to_headers (erase v) ≡ ok hs)
unfolding to_headers
table_back b hs p = (
  obj (table b hs),
  to_v2_headers-plain b hs p,
  rw (erase-is_json _ (is_json-table b hs p)) (headers_of-table b hs p),
)

-- Headers with text values, non-empty and distinct names, none of them inherited, come back as they
-- were after `toV2Headers`, a round through JSON and `toHeaders`, with values in arrays or not, if the
-- names that are array indices come first and in ascending order, as JavaScript lists them.
pub to_headers-to_v2_headers :
    (b : Bool) (hs : List Header)
    → are_plain hs ≡ true
    → (v : Value) × (to_v2_headers hs b ≡ ok v) × (to_headers (erase v) ≡ ok hs)
to_headers-to_v2_headers b hs p = table_back b hs (ground arith)
