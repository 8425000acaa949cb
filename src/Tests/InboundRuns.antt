-- ===== src/Tests/InboundRuns.antt =====
-- Protocol settings (web/assets/js/model/inbound.js).
use ax_ui.Common.{◌≡◌, refl, true, false, [], ◌∷◌, ok, map}
use ax_ui.Js.{Value, undefined, null, bool, nat, str, arr, strings}
use ax_ui.Js.Json.{erase, is_json}
use ax_ui.Js.Arrays.{ReadsBack}
use ax_ui.Headers.{header, inherited}
use ax_ui.Inbound.Fallback
use ax_ui.Inbound.Clients.Vless as VlessClient
use ax_ui.Inbound.Clients.Trojan as TrojanClient
use ax_ui.Inbound.Clients.Account
use ax_ui.Inbound.Settings.Vless
use ax_ui.Inbound.Settings.Trojan
use ax_ui.Inbound.Settings.Mixed
use ax_ui.Inbound.Settings.Tunnel
use ax_ui.Inbound.Settings.Peer
use ax_ui.Inbound.Settings.Peer.RoundTrip as PeerTrip
use ax_ui.Inbound.Settings.Tun

abbrev pub vless_random : VlessClient.Random
vless_random = record { id = str "3f2a"; email = str "a1b2"; sub_id = str "s0" }

abbrev fallback : Fallback.Fallback
fallback = record Fallback.new { dest = nat 8080; xver = str "1" }

fallback-IsJson : Fallback.IsJson fallback
unfolding is_json
fallback-IsJson = record { name = refl; alpn = refl; path = refl; dest = refl }

-- One client with a flow, and one fallback.
abbrev pub vless : Vless.VlessSettings
vless = record {
  vlesses = record (VlessClient.new vless_random) { flow = str "xtls-rprx-vision" } ∷ [];
  decryption = str "";
  encryption = str "none";
  fallbacks = fallback ∷ [];
  selected_auth = undefined;
  testseed = Vless.default_testseed;
}

pub vless-IsJson : Vless.IsJson vless
unfolding is_json
vless-IsJson = record {
  vlesses = (
    record {
      id = refl;
      flow = refl;
      email = refl;
      limit_ip = refl;
      total_gb = refl;
      expiry_time = refl;
      enable = refl;
      tg_id = refl;
      sub_id = refl;
      comment = refl;
      reset = refl;
      created_at = refl;
      updated_at = refl;
    },
    tt,
  );
  decryption = refl;
  encryption = refl;
  fallbacks = (fallback-IsJson, tt);
  selected_auth = refl;
  testseed = refl;
}

from_json-to_json_vless_example :
    (v : Value) × (Vless.to_json vless ≡ ok v)
    × (Vless.from_json (λ i. vless_random) (erase v) ≡ ok (Vless.kept vless))
from_json-to_json_vless_example =
    Vless.from_json-to_json_vless (λ i. vless_random) vless vless-IsJson

abbrev pub account_random : Account.Random
account_random = record { user = str "u"; pass = str "p" }

abbrev mixed : Mixed.MixedSettings
mixed = record {
  auth = str "noauth";
  accounts = Account.new account_random ∷ [];
  udp = bool true;
  ip = str "127.0.0.1";
}

mixed-IsJson : Mixed.IsJson mixed
unfolding is_json
mixed-IsJson = record {
  auth = refl;
  accounts = (record { user = refl; pass = refl }, tt);
  udp = refl;
  ip = refl;
}

from_json-to_json_mixed_example :
    (v : Value) × (Mixed.to_json mixed ≡ ok v)
    × (Mixed.from_json (λ i. account_random) (erase v)
        ≡ ok (Mixed.kept (λ i. account_random) mixed))
from_json-to_json_mixed_example =
    Mixed.from_json-to_json_mixed (λ i. account_random) mixed mixed-IsJson

abbrev pub trojan_random : TrojanClient.Random
trojan_random = record { password = str "pw"; email = str "a1b2"; sub_id = str "s0" }

abbrev trojan : Trojan.TrojanSettings
trojan = record { trojans = TrojanClient.new trojan_random ∷ []; fallbacks = fallback ∷ [] }

trojan-IsJson : Trojan.IsJson trojan
unfolding is_json
trojan-IsJson = record {
  trojans = (
    record {
      password = refl;
      email = refl;
      limit_ip = refl;
      total_gb = refl;
      expiry_time = refl;
      enable = refl;
      tg_id = refl;
      sub_id = refl;
      comment = refl;
      reset = refl;
      created_at = refl;
      updated_at = refl;
    },
    tt,
  );
  fallbacks = (fallback-IsJson, tt);
}

from_json-to_json_trojan_example :
    (v : Value) × (Trojan.to_json trojan ≡ ok v)
    × (Trojan.from_json (λ i. trojan_random) (erase v)
        ≡ ok (record {
          trojans = map TrojanClient.kept trojan.trojans;
          fallbacks = map Fallback.kept trojan.fallbacks;
        }))
from_json-to_json_trojan_example =
    Trojan.from_json-to_json_trojan (λ i. trojan_random) trojan trojan-IsJson

abbrev tunnel : Tunnel.TunnelSettings
tunnel = record {
  address = undefined;
  port = nat 53;
  port_map = header "5555" (str "1.1.1.1:7777") ∷ [];
  network = str "udp";
  follow_redirect = bool false;
}

tunnel-IsJson : Tunnel.IsJson tunnel
unfolding is_json inherited
tunnel-IsJson = record {
  address = refl;
  port = refl;
  port_map = refl;
  network = refl;
  follow_redirect = refl;
}

from_json-to_json_tunnel_example :
    (v : Value) × (Tunnel.to_json tunnel ≡ ok v) × (Tunnel.from_json (erase v) ≡ ok tunnel)
from_json-to_json_tunnel_example = Tunnel.from_json-to_json_tunnel tunnel tunnel-IsJson

abbrev pub pair : Peer.KeyPair
pair = record { public = str "K="; private = str "S=" }

abbrev pub peer : Peer.Peer
peer = record {
  private_key = undefined;
  public_key = str "P=";
  psk = str "";
  allowed_ips = arr (strings ("10.0.0.2" ∷ "10.0.1.0/24" ∷ []));
  keep_alive = null;
}

pub peer-IsJson : Peer.IsJson peer
unfolding is_json
peer-IsJson = record {
  private_key = refl;
  public_key = refl;
  has_public = refl;
  psk = refl;
  keep_alive = refl;
  allowed_ips = ("10.0.0.2" ∷ "10.0.1.0/24" ∷ [], refl);
}

from_json-to_json_peer_example : ReadsBack Peer.to_json (Peer.from_json pair) PeerTrip.kept peer
from_json-to_json_peer_example = PeerTrip.from_json-to_json_peer pair peer peer-IsJson

abbrev tun : Tun.TunSettings
tun = record { name = str ""; mtu = nat 9000; user_level = nat 0 }

tun-IsJson : Tun.IsJson tun
unfolding is_json
tun-IsJson = record { name = refl; mtu = refl; user_level = refl }

from_json-to_json_tun_example : Tun.from_json (erase (Tun.to_json tun)) ≡ ok (Tun.kept tun)
from_json-to_json_tun_example = Tun.from_json-to_json_tun tun tun-IsJson
