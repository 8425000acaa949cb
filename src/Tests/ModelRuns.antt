-- ===== src/Tests/ModelRuns.antt =====
-- Inbounds (web/assets/js/model/inbound.js).
use ax_ui.Common.{◌≡◌, ◌⊎◌, refl, true, [], ◌∷◌, ok, some, none, false}
use ax_ui.Js.{Value, null, bool, nat, str}
use ax_ui.Js.Json.{erase, is_json}
use ax_ui.Tests.StreamRuns as StreamRuns
use ax_ui.Tests.InboundRuns.{
  vless_random, account_random, trojan_random, vless, vless-IsJson, pair, peer, peer-IsJson,
}
use ax_ui.Inbound.Settings.Wireguard
use ax_ui.Inbound.Protocol
use ax_ui.Inbound.Protocol.{of_vless}
use ax_ui.Inbound.Sniffing
use ax_ui.Inbound.Model.{
  Inbound, Random, from_json, to_json, set_protocol, reset, can_enable_reality,
}
use ax_ui.Inbound.Model.RoundTrip.{IsJson, kept, from_json-to_json_inbound}
use ax_ui.Inbound.Model.Sync.{InSync, from_json-InSync, set_protocol-InSync}
use ax_ui.Inbound.Model.Reset.{IsDrawn, fresh_settings, from_json-reset}
use ax_ui.Inbound.Model.Abilities.{Among, IsXtls, vision_seed-tls_flow}
use ax_ui.Inbound.Settings.Vless.{VlessSettings}
use ax_ui.Inbound.Clients.Vless.{Vless}
use ax_ui.Stream.Settings as Stream

-- A key generator that derives one public key.
abbrev keys : Wireguard.Keys
keys = record { secret_key = str "S="; public_of = λ v. ok (str "K="); pair = λ i. pair }

abbrev wireguard : Wireguard.WireguardSettings
wireguard = record {
  mtu = null;
  secret_key = str "T=";
  pub_key = str "K=";
  peers = peer ∷ [];
  no_kernel_tun = bool false;
}

wireguard-IsJson : Wireguard.IsJson keys wireguard
unfolding is_json
wireguard-IsJson = record {
  mtu = refl;
  secret_key = refl;
  pub_key = refl;
  peers = (peer-IsJson, tt);
  no_kernel_tun = refl;
}

from_json-to_json_wireguard_example :
    (v : Value) × (Wireguard.to_json wireguard ≡ ok v)
    × (Wireguard.from_json keys (erase v) ≡ ok (Wireguard.kept wireguard))
from_json-to_json_wireguard_example =
    Wireguard.from_json-to_json_wireguard keys wireguard wireguard-IsJson

abbrev random : Random
random = record {
  port = nat 23456;
  settings = record {
    vmess = λ i. record { id = str "9c"; email = str "m"; sub_id = str "s" };
    vless = λ i. vless_random;
    trojan = λ i. trojan_random;
    shadowsocks = record {
      password = str "pw";
      client = λ i. record { password = str "cp"; email = str "e"; sub_id = str "s" };
    };
    account = λ i. account_random;
    keys = keys;
    awg = λ i. record { id = str "a"; email = str "e" };
    wg = λ i. record { id = str "w"; email = str "e" };
  };
  stream = StreamRuns.random;
}

-- A VLESS inbound over WebSocket and TLS.
abbrev pub inbound : Inbound
inbound = record {
  port = nat 443;
  listen = str "";
  protocol = str "vless";
  settings = some (of_vless vless);
  stream = StreamRuns.ws_tls;
  tag = str "in-443";
  sniffing = Sniffing.new;
  client_stats = str "";
}

inbound-IsJson : IsJson random (of_vless vless) inbound
unfolding is_json
inbound-IsJson = record {
  port = refl;
  listen = refl;
  protocol = refl;
  settings = refl;
  settings_json = vless-IsJson;
  stream = λ e. StreamRuns.ws_tls-IsJson;
  tag = refl;
  sniffing = record {
    enabled = refl;
    dest_override = refl;
    dest_array = refl;
    metadata_only = refl;
    route_only = refl;
  };
  client_stats = refl;
}

from_json-to_json_inbound_example :
    (v : Value) × (to_json inbound ≡ ok v)
    × (from_json random (erase v) ≡ ok (kept random (of_vless vless) inbound))
from_json-to_json_inbound_example =
    from_json-to_json_inbound random (of_vless vless) inbound inbound-IsJson

-- VLESS over TCP with TLS, where a client has the flow of Vision.
abbrev vision : Inbound
vision = record inbound {
  stream = record StreamRuns.ws_tls { network = str "tcp"; security = str "tls" };
}

vision_seed-tls_flow_example :
    (vision.protocol ≡ str "vless")
    × (vision.stream.network ≡ str "tcp")
    × ((vision.stream.security ≡ str "tls") ⊎ (vision.stream.security ≡ str "reality"))
    × (can_enable_reality vision ≡ true)
    × ((s : VlessSettings) × (c : Vless) × (vision.settings ≡ some (of_vless s))
        × Among c s.vlesses
        × IsXtls c)
vision_seed-tls_flow_example = vision_seed-tls_flow vision refl

random-IsDrawn : IsDrawn random
unfolding is_json
random-IsDrawn = record { port = refl; id = refl; email = refl; sub_id = refl }

from_json-reset_example :
    (j : Inbound) × (v : Value) × (reset random inbound ≡ ok j)
    × (j.port ≡ nat 23456)
    × (j.settings ≡ some (fresh_settings random))
    × (to_json j ≡ ok v)
    × (from_json random (erase v) ≡ ok (record j { stream = Stream.new random.stream }))
unfolding is_json
from_json-reset_example = from_json-reset random random inbound random-IsDrawn refl

set_protocol-InSync_example : InSync (record inbound { protocol = str "dns"; settings = none })
unfolding set_protocol Protocol.get_settings
set_protocol-InSync_example = set_protocol-InSync random.settings (str "dns") inbound _ refl

abbrev read_back :
    (v : Value) × (to_json inbound ≡ ok v)
    × (from_json random (erase v) ≡ ok (kept random (of_vless vless) inbound))
read_back = from_json-to_json_inbound random (of_vless vless) inbound inbound-IsJson

from_json-InSync_example : InSync (kept random (of_vless vless) inbound)
from_json-InSync_example =
    from_json-InSync random (erase (read_back.0)) (kept random (of_vless vless) inbound)
      (read_back.2)
