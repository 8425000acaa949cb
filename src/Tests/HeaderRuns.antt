-- ===== src/Tests/HeaderRuns.antt =====
-- Header lists (web/assets/js/model/inbound.js).
use ax_ui.Common.{◌≡◌, refl, true, false, List, [], ◌∷◌, ◌++◌, ok, type_error, String}
use ax_ui.Js.{Value, undefined, str, arr, obj, nil, cons, property, entries}
use ax_ui.Js.Json.{erase}
use ax_ui.Headers.{Header, header, to_headers, to_v2_headers, add_headers, add_header, inherited}
use ax_ui.Headers.LastWins.{last_value, to_v2_headers_last}
use ax_ui.Headers.Grouped.{values_for, grouped, to_v2_headers-grouped}
use ax_ui.Headers.Inherited.{to_v2_headers-inherited}
use ax_ui.Headers.RoundTrip.{to_headers-to_v2_headers}

abbrev two_hosts : List Header
two_hosts =
    header "Host" (str "a")
    ∷ header "" (str "x")
    ∷ header "Host" (str "b")
    ∷ header "Via" (str "c")
    ∷ []

arrays_run :
    to_v2_headers two_hosts true
    ≡ ok (
        obj (
          entries (
            ("Host", arr (cons (str "a") (cons (str "b") nil)))
            ∷ ("Via", arr (cons (str "c") nil))
            ∷ [])))
unfolding to_v2_headers add_headers add_header inherited
arrays_run = refl

last_run :
    to_v2_headers two_hosts false ≡ ok (obj (entries (("Host", str "b") ∷ ("Via", str "c") ∷ [])))
unfolding to_v2_headers add_headers add_header inherited
last_run = refl

to_headers_run :
    to_headers
      (obj (entries (("Host", arr (cons (str "a") (cons (str "b") nil))) ∷ ("Via", str "c") ∷ [])))
    ≡ ok (header "Host" (str "a") ∷ header "Host" (str "b") ∷ header "Via" (str "c") ∷ [])
unfolding to_headers
to_headers_run = refl

to_v2_headers_last_example :
    (ps : _) × (to_v2_headers two_hosts false ≡ ok (obj ps))
    × ((k : String) → property k ps ≡ last_value k two_hosts undefined)
unfolding inherited
to_v2_headers_last_example = to_v2_headers_last two_hosts refl

to_v2_headers-grouped_example :
    (ps : _) × (to_v2_headers two_hosts true ≡ ok (obj ps))
    × ((k : String) → property k ps ≡ grouped (values_for k two_hosts))
unfolding inherited
to_v2_headers-grouped_example = to_v2_headers-grouped two_hosts refl

to_v2_headers-inherited_example :
    to_v2_headers (two_hosts ++ header "constructor" (str "x") ∷ two_hosts) true ≡ type_error
unfolding inherited
to_v2_headers-inherited_example =
    to_v2_headers-inherited two_hosts (header "constructor" (str "x")) two_hosts refl refl

abbrev plain : List Header
plain = header "Host" (str "example.com") ∷ header "User-Agent" (str "curl") ∷ []

to_headers-to_v2_headers_example :
    (v : Value) × (to_v2_headers plain true ≡ ok v) × (to_headers (erase v) ≡ ok plain)
unfolding inherited
to_headers-to_v2_headers_example = to_headers-to_v2_headers true plain refl
