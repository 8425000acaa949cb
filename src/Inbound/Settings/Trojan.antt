-- ===== src/Inbound/Settings/Trojan.antt =====
-- `Inbound.TrojanSettings` (web/assets/js/model/inbound.js).
use ax_ui.Common.{
  ◌≡◌, refl, ℕ, List, [], ◌∷◌, ◌++◌, map, Result, ok, ◌>>=◌, traverse, All, erase_idx,
}
use ax_ui.Js.{Value, arr, obj, entries, of_list}
use ax_ui.Js.Json.{erase}
use ax_ui.Js.Lookup.{open_json, open_json-erase}
use ax_ui.Js.Arrays.{map_array, map_array-erase}
use ax_ui.Inbound.Clients.Trojan
use ax_ui.Inbound.Fallback

pub record TrojanSettings : Type 0 where
  pub trojans : List Trojan.Trojan
  pub fallbacks : List Fallback.Fallback

unfoldable pub from_json : (ℕ → Trojan.Random) → Value → Result TrojanSettings
from_json random json = do
  at ← open_json json
  trojans ← map_array (λ i. Trojan.from_json (random i)) (at "clients")
  fallbacks ← Fallback.from_json (at "fallbacks")
  ok (record { trojans = trojans; fallbacks = fallbacks })

abbrev object : List Value → List Value → Value
object clients fallbacks =
    obj (entries (("clients", arr (of_list clients)) ∷ ("fallbacks", arr (of_list fallbacks)) ∷ []))

unfoldable pub to_json : TrojanSettings → Result Value
to_json s = do
  clients ← traverse Trojan.to_json s.trojans
  fallbacks ← traverse Fallback.to_json s.fallbacks
  ok (object clients fallbacks)

-- `addFallback` and `delFallback`.
unfoldable pub add_fallback : TrojanSettings → TrojanSettings
add_fallback s = record s { fallbacks = s.fallbacks ++ Fallback.new ∷ [] }

unfoldable pub del_fallback : TrojanSettings → ℕ → TrojanSettings
del_fallback s i = record s { fallbacks = erase_idx s.fallbacks i }

-- Every field holds a value that JSON can write.
pub record IsJson (s : TrojanSettings) : Type 0 where
  pub trojans : All Trojan.IsJson s.trojans
  pub fallbacks : All Fallback.IsJson s.fallbacks

-- Trojan settings come back from JSON with each client as it was, and with 0 for an `xver` of a
-- fallback that is no integer, if JSON can write each other field.
pub from_json-to_json_trojan :
    (random : ℕ → Trojan.Random) (s : TrojanSettings)
    → IsJson s
    → (v : Value) × (to_json s ≡ ok v)
      × (from_json random (erase v)
          ≡ ok (record {
            trojans = map Trojan.kept s.trojans;
            fallbacks = map Fallback.kept s.fallbacks;
          }))
unfolding from_json to_json
from_json-to_json_trojan random s h =
    let (vs, w, r) =
      (map_array-erase Trojan.to_json (λ i. Trojan.from_json (random i)) Trojan.kept Trojan.IsJson
        (λ i. Trojan.from_json-to_json (random i)) s.trojans h.trojans) in
    let (fs, w', r') = Fallback.from_json-to_json s.fallbacks h.fallbacks in
    (object vs fs, rw (w, w'), rw (open_json-erase _ _ refl) (rw (r, r')))
