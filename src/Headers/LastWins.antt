-- ===== src/Headers/LastWins.antt =====
-- `toV2Headers(headers, false)` (web/assets/js/model/inbound.js): one value for each name.
use ax_ui.Common.{
  ◌≡◌, refl, ap, ◌∙◌, true, false, not, ◌&&◌, String, List, [], ◌∷◌, ◌==◌, if◌then◌else◌, arith, ok,
  all, Bool,
}
use ax_ui.Js.{Value, undefined, obj, Props, end, property, put}
use ax_ui.Js.Lookup.{property-put}
use ax_ui.Headers.{
  is_blank, inherited-proto, Header, inherited, add_header, add_headers, to_v2_headers,
}

-- The last header of a name that has a value, or else what is given.
abbrev pub last_value : String → List Header → Value → Value
last_value k [] v = v
last_value k (h ∷ hs) v = last_value k hs (if h.name == k && not (is_blank h) then h.value else v)

abbrev pub is_own_name : Header → Bool
is_own_name h = not (inherited h.name)

-- The object that the loop has built.
abbrev built : List Header → Props → Props
built [] ps = ps
built (h ∷ hs) ps = built hs (if is_blank h then ps else put h.name h.value ps)

add_header_plain :
    (h : Header) (ps : Props)
    → inherited h.name ≡ false
    → add_header false h ps ≡ ok (if is_blank h then ps else put h.name h.value ps)
unfolding add_header
add_header_plain h ps e = ground (arith, inherited-proto h.name)

add_headers_plain :
    (hs : List Header) (ps : Props)
    → all is_own_name hs ≡ true
    → add_headers false hs ps ≡ ok (built hs ps)
unfolding add_headers
add_headers_plain [] ps e = refl
add_headers_plain (h ∷ hs) ps e = ground (
  arith,
  add_header_plain h ps,
  add_headers_plain hs (if is_blank h then ps else put h.name h.value ps),
)

property-built :
    (k : String) (hs : List Header) (ps : Props)
    → property k (built hs ps) ≡ last_value k hs (property k ps)
property-built k [] ps = refl
property-built k (h ∷ hs) ps =
    property-built k hs (if is_blank h then ps else put h.name h.value ps)
    ∙ ap (last_value k hs) (ground (arith, property-put h.name k h.value ps))

-- Where no name is one that every object inherits, the call succeeds, and each name has the value of
-- the last header of that name whose name and value are not empty, or no value.
pub to_v2_headers_last :
    (hs : List Header)
    → all is_own_name hs ≡ true
    → (ps : Props) × (to_v2_headers hs false ≡ ok (obj ps))
      × ((k : String) → property k ps ≡ last_value k hs undefined)
unfolding to_v2_headers
to_v2_headers_last hs e =
    (built hs end, rw (add_headers_plain hs end e), λ k. property-built k hs end)
