-- ===== src/Inbound/Settings/Tunnel.antt =====
-- `Inbound.TunnelSettings` (web/assets/js/model/inbound.js).
use ax_ui.Common.{◌≡◌, refl, true, false, List, [], ◌∷◌, Result, ok, ◌>>=◌}
use ax_ui.Js.{Value, bool, str, obj, entries, default}
use ax_ui.Js.Json.{erase, is_json, is_optional, default-erase, erase_optional}
use ax_ui.Js.Lookup.{open_json, open_json-erase}
use ax_ui.Headers.{Header, to_headers, to_v2_headers}
use ax_ui.Headers.RoundTrip.{are_plain, to_headers-to_v2_headers}

pub record TunnelSettings : Type 0 where
  pub address : Value
  pub port : Value
  pub port_map : List Header
  pub network : Value
  pub follow_redirect : Value

unfoldable pub from_json : Value → Result TunnelSettings
from_json json = do
  at ← open_json json
  port_map ← to_headers (at "portMap")
  ok (record {
    address = at "address";
    port = at "port";
    port_map = port_map;
    network = default (str "tcp,udp") (at "network");
    follow_redirect = default (bool false) (at "followRedirect");
  })

abbrev object : TunnelSettings → Value → Value
object s port_map = obj (
    entries (
      ("address", s.address)
      ∷ ("port", s.port)
      ∷ ("portMap", port_map)
      ∷ ("network", s.network)
      ∷ ("followRedirect", s.follow_redirect)
      ∷ []))

unfoldable pub to_json : TunnelSettings → Result Value
to_json s = do port_map ← to_v2_headers s.port_map false; ok (object s port_map)

-- Every field holds a value that JSON can write, or no value for the address and the port.
pub record IsJson (s : TunnelSettings) : Type 0 where
  pub address : is_optional s.address ≡ true
  pub port : is_optional s.port ≡ true
  pub port_map : are_plain s.port_map ≡ true
  pub network : is_json s.network ≡ true
  pub follow_redirect : is_json s.follow_redirect ≡ true

-- Tunnel settings come back from JSON as they were, if JSON can write each field (or it is an
-- `undefined` address or port) and the port map has text values and distinct, non-empty names, none
-- of them inherited, in an order that JavaScript keeps.
pub from_json-to_json_tunnel :
    (s : TunnelSettings)
    → IsJson s
    → (v : Value) × (to_json s ≡ ok v) × (from_json (erase v) ≡ ok s)
unfolding from_json to_json
from_json-to_json_tunnel s h =
    let (v, e, back) = to_headers-to_v2_headers false s.port_map h.port_map in
    (
      object s v,
      rw e,
      rw (open_json-erase _ _ refl) (
          rw back (
            simp (erase_optional, default-erase, h.address, h.port, h.network, h.follow_redirect))),
    )
