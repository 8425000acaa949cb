-- ===== src/Inbound/Settings/Amneziawg.antt =====
-- `Inbound.AmneziawgSettings` (web/assets/js/model/inbound.js).
use ax_ui.Common.{◌≡◌, refl, ℕ, List, [], ◌∷◌, map, Result, ok, ◌>>=◌, traverse, All}
use ax_ui.Js.{Value, arr, obj, nil, entries, or_value, of_list}
use ax_ui.Js.Json.{erase}
use ax_ui.Js.Lookup.{open_json, open_json-erase}
use ax_ui.Js.Arrays.{map_array, map_array-erase, or_value-erase_arr}
use ax_ui.Inbound.Clients.Awg

pub record AmneziawgSettings : Type 0 where
  pub clients : List Awg.AwgPeer

-- `(json.clients || []).map(…)`
unfoldable pub from_json : (ℕ → Awg.Random) → Value → Result AmneziawgSettings
from_json random json = do
  at ← open_json json
  clients ← map_array (λ i. Awg.from_json (random i)) (or_value (at "clients") (arr nil))
  ok (record { clients = clients })

abbrev object : AmneziawgSettings → List Value → Value
object s clients = obj (entries (("clients", arr (of_list clients)) ∷ []))

unfoldable pub to_json : AmneziawgSettings → Result Value
to_json s = do clients ← traverse Awg.to_json s.clients; ok (object s clients)

-- Every field holds a value that JSON can write.
pub record IsJson (s : AmneziawgSettings) : Type 0 where
  pub clients : All Awg.IsJson s.clients

-- AmneziaWG settings come back from JSON with what is kept of each client, if JSON can write each field.
pub from_json-to_json_awg :
    (random : ℕ → Awg.Random) (s : AmneziawgSettings)
    → IsJson s
    → (v : Value) × (to_json s ≡ ok v)
      × (from_json random (erase v) ≡ ok (record s { clients = map Awg.kept s.clients }))
unfolding from_json to_json
from_json-to_json_awg random s h =
    let (vs, w, r) =
      (map_array-erase Awg.to_json (λ i. Awg.from_json (random i)) Awg.kept Awg.IsJson
        (λ i. Awg.from_json-to_json (random i)) s.clients h.clients) in
    (
      object s vs,
      rw w,
      rw (open_json-erase _ _ refl) (rw (or_value-erase_arr (of_list vs) (arr nil)) (rw r)),
    )
