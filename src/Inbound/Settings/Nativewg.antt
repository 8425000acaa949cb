-- ===== src/Inbound/Settings/Nativewg.antt =====
-- `Inbound.NativewgSettings` (web/assets/js/model/inbound.js).
use ax_ui.Common.{◌≡◌, refl, ℕ, List, [], ◌∷◌, map, Result, ok, ◌>>=◌, traverse, All}
use ax_ui.Js.{Value, arr, obj, nil, entries, or_value, of_list}
use ax_ui.Js.Json.{erase}
use ax_ui.Js.Lookup.{open_json, open_json-erase}
use ax_ui.Js.Arrays.{map_array, map_array-erase, or_value-erase_arr}
use ax_ui.Inbound.Clients.Nativewg

pub record NativewgSettings : Type 0 where
  pub clients : List Nativewg.WgPeer

-- `(json.clients || []).map(…)`
unfoldable pub from_json : (ℕ → Nativewg.Random) → Value → Result NativewgSettings
from_json random json = do
  at ← open_json json
  clients ← map_array (λ i. Nativewg.from_json (random i)) (or_value (at "clients") (arr nil))
  ok (record { clients = clients })

abbrev object : NativewgSettings → List Value → Value
object s clients = obj (entries (("clients", arr (of_list clients)) ∷ []))

unfoldable pub to_json : NativewgSettings → Result Value
to_json s = do clients ← traverse Nativewg.to_json s.clients; ok (object s clients)

-- Every field holds a value that JSON can write.
pub record IsJson (s : NativewgSettings) : Type 0 where
  pub clients : All Nativewg.IsJson s.clients

-- Native WireGuard settings come back from JSON with what is kept of each client, if JSON can write each field.
pub from_json-to_json_wg :
    (random : ℕ → Nativewg.Random) (s : NativewgSettings)
    → IsJson s
    → (v : Value) × (to_json s ≡ ok v)
      × (from_json random (erase v) ≡ ok (record s { clients = map Nativewg.kept s.clients }))
unfolding from_json to_json
from_json-to_json_wg random s h =
    let (vs, w, r) =
      (map_array-erase Nativewg.to_json (λ i. Nativewg.from_json (random i)) Nativewg.kept
        Nativewg.IsJson (λ i. Nativewg.from_json-to_json (random i)) s.clients h.clients) in
    (
      object s vs,
      rw w,
      rw (open_json-erase _ _ refl) (rw (or_value-erase_arr (of_list vs) (arr nil)) (rw r)),
    )
