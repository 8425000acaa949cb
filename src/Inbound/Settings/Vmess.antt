-- ===== src/Inbound/Settings/Vmess.antt =====
-- `Inbound.VmessSettings` (web/assets/js/model/inbound.js).
use ax_ui.Common.{◌≡◌, refl, ℕ, List, [], ◌∷◌, map, Result, ok, ◌>>=◌, traverse, All}
use ax_ui.Js.{Value, arr, obj, entries, of_list}
use ax_ui.Js.Json.{erase}
use ax_ui.Js.Lookup.{open_json, open_json-erase}
use ax_ui.Js.Arrays.{map_array, map_array-erase}
use ax_ui.Inbound.Clients.Vmess

pub record VmessSettings : Type 0 where
  pub vmesses : List Vmess.Vmess

-- `json.clients.map(…)`
unfoldable pub from_json : (ℕ → Vmess.Random) → Value → Result VmessSettings
from_json random json = do
  at ← open_json json
  vmesses ← map_array (λ i. Vmess.from_json (random i)) (at "clients")
  ok (record { vmesses = vmesses })

abbrev object : VmessSettings → List Value → Value
object s clients = obj (entries (("clients", arr (of_list clients)) ∷ []))

unfoldable pub to_json : VmessSettings → Result Value
to_json s = do clients ← traverse Vmess.to_json s.vmesses; ok (object s clients)

-- Every field holds a value that JSON can write.
pub record IsJson (s : VmessSettings) : Type 0 where
  pub vmesses : All Vmess.IsJson s.vmesses

-- VMess settings come back from JSON with what is kept of each client, if JSON can write each field.
pub from_json-to_json_vmess :
    (random : ℕ → Vmess.Random) (s : VmessSettings)
    → IsJson s
    → (v : Value) × (to_json s ≡ ok v)
      × (from_json random (erase v) ≡ ok (record s { vmesses = map Vmess.kept s.vmesses }))
unfolding from_json to_json
from_json-to_json_vmess random s h =
    let (vs, w, r) =
      (map_array-erase Vmess.to_json (λ i. Vmess.from_json (random i)) Vmess.kept Vmess.IsJson
        (λ i. Vmess.from_json-to_json (random i)) s.vmesses h.vmesses) in
    (object s vs, rw w, rw (open_json-erase _ _ refl) ((rw r)))
