-- ===== src/Inbound/Settings/Shadowsocks.antt =====
-- `Inbound.ShadowsocksSettings` (web/assets/js/model/inbound.js).
use ax_ui.Common.{◌≡◌, refl, true, false, ℕ, List, [], ◌∷◌, map, Result, ok, ◌>>=◌, traverse, All}
use ax_ui.Js.{Value, bool, str, arr, obj, entries, default, of_list}
use ax_ui.Js.Json.{erase, is_json, default-erase}
use ax_ui.Js.Lookup.{open_json, open_json-erase}
use ax_ui.Js.Arrays.{map_array, map_array-erase}
use ax_ui.Inbound.Clients.Shadowsocks

pub record ShadowsocksSettings : Type 0 where
  pub shadowsockses : List Shadowsocks.Shadowsocks
  pub method : Value
  pub password : Value
  pub network : Value
  pub iv_check : Value

-- The random choices of the settings, and of each client.
pub record Random : Type 0 where
  pub password : Value
  pub client : ℕ → Shadowsocks.Random

-- `json.clients.map(…)`
unfoldable pub from_json : Random → Value → Result ShadowsocksSettings
from_json random json = do
  at ← open_json json
  shadowsockses ← map_array (λ i. Shadowsocks.from_json (random.client i)) (at "clients")
  ok (record {
    shadowsockses = shadowsockses;
    method = default (str "2022-blake3-aes-256-gcm") (at "method");
    password = default (random.password) (at "password");
    network = default (str "tcp,udp") (at "network");
    iv_check = default (bool false) (at "ivCheck");
  })

abbrev object : ShadowsocksSettings → List Value → Value
object s clients = obj (
    entries (
      ("method", s.method)
      ∷ ("password", s.password)
      ∷ ("network", s.network)
      ∷ ("clients", arr (of_list clients))
      ∷ ("ivCheck", s.iv_check)
      ∷ []))

unfoldable pub to_json : ShadowsocksSettings → Result Value
to_json s = do clients ← traverse Shadowsocks.to_json s.shadowsockses; ok (object s clients)

-- Every field holds a value that JSON can write.
pub record IsJson (s : ShadowsocksSettings) : Type 0 where
  pub shadowsockses : All Shadowsocks.IsJson s.shadowsockses
  pub method : is_json s.method ≡ true
  pub password : is_json s.password ≡ true
  pub network : is_json s.network ≡ true
  pub iv_check : is_json s.iv_check ≡ true

-- Shadowsocks settings come back from JSON with what is kept of each client, if JSON can write each field.
pub from_json-to_json_shadowsocks :
    (random : Random) (s : ShadowsocksSettings)
    → IsJson s
    → (v : Value) × (to_json s ≡ ok v)
      × (from_json random (erase v)
          ≡ ok (record s { shadowsockses = map Shadowsocks.kept s.shadowsockses }))
unfolding from_json to_json
from_json-to_json_shadowsocks random s h =
    let (vs, w, r) =
      (map_array-erase Shadowsocks.to_json (λ i. Shadowsocks.from_json (random.client i))
        Shadowsocks.kept Shadowsocks.IsJson (λ i. Shadowsocks.from_json-to_json (random.client i))
        s.shadowsockses h.shadowsockses) in
    (
      object s vs,
      rw w,
      rw (open_json-erase _ _ refl)
          ((rw (r) (simp (default-erase, h.method, h.password, h.network, h.iv_check)))),
    )
