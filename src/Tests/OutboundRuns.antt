-- ===== src/Tests/OutboundRuns.antt =====
-- Outbounds (web/assets/js/model/outbound.js).
use ax_ui.Common.{◌≡◌, refl, true, false, [], ◌∷◌, ok, some, ◌==◌, if◌then◌else◌}
use ax_ui.Js.{Value, undefined, null, bool, nat, str, truthy, item_text, show_ℕ, show_ℤ}
use ax_ui.Js.Json.{erase, is_json}
use ax_ui.Js.Text.{split}
use ax_ui.Outbound.Settings.Peer
use ax_ui.Outbound.Settings.Vless
use ax_ui.Outbound.Settings.Vless.{VlessSettings}
use ax_ui.Outbound.Settings.Wireguard
use ax_ui.Outbound.Settings.Wireguard.{Calls, WireguardSettings}
use ax_ui.Outbound.Settings.Wireguard.RoundTrip as WireguardTrip
use ax_ui.Outbound.Protocol.{of_vless}
use ax_ui.Outbound.Mux
use ax_ui.Outbound.Stream.Sockopt
use ax_ui.Outbound.Stream.Ws
use ax_ui.Outbound.Stream.Settings as Stream
use ax_ui.Outbound.Stream.Settings.RoundTrip as StreamTrip
use ax_ui.Outbound.Model.{Outbound, from_json, to_json, can_enable_mux}
use ax_ui.Outbound.Model.RoundTrip.{IsJson, kept, from_json-to_json_outbound}
use ax_ui.Outbound.Model.Abilities.{can_enable_mux-to_json, member}

-- One key pair, and a `Number` that reads one numeral.
abbrev calls : Calls
calls = record { public_of = λ v. ok (str "K="); number = λ t. if t == "7" then nat 7 else null }

-- A WebSocket transport over TLS, with socket options.
abbrev ws_tls : Stream.StreamSettings
ws_tls = record Stream.new {
  network = str "ws";
  security = str "tls";
  ws = record Ws.new { host = str "example.com" };
  sockopt = some Sockopt.new;
}

ws_tls-IsJson : StreamTrip.IsJson ws_tls
unfolding is_json
ws_tls-IsJson = record {
  network = refl;
  security = refl;
  tls = λ e. record {
    server_name = refl;
    alpn = refl;
    fingerprint = refl;
    ech_config_list = refl;
    verify_peer_cert_by_name = refl;
    pinned_peer_cert_sha256 = refl;
  };
  reality = λ e. cc;
  tcp = λ e. cc;
  kcp = λ e. cc;
  ws = λ e. record { path = refl; host = refl; heartbeat_period = refl };
  grpc = λ e. cc;
  httpupgrade = λ e. cc;
  xhttp = λ e. cc;
  hysteria = λ e. cc;
  finalmask = λ e. cc;
  sockopt = record {
    dialer_proxy = refl;
    tcp_fast_open = refl;
    tcp_keep_alive_interval = refl;
    tcp_mptcp = refl;
    penetrate = refl;
    address_port_strategy = refl;
    trusted_x_forwarded_for = refl;
    trusted_x_forwarded_for_array = refl;
  };
}

from_json-to_json_outbound_stream_example :
    (v : Value) × (Stream.to_json ws_tls ≡ ok v)
    × (Stream.from_json (erase v) ≡ ok (StreamTrip.kept ws_tls))
from_json-to_json_outbound_stream_example =
    StreamTrip.from_json-to_json_outbound_stream ws_tls ws_tls-IsJson

-- A VLESS user with the flow of Vision.
abbrev vless : VlessSettings
vless = record Vless.new {
  address = str "example.com";
  port = nat 443;
  id = str "5783a3e7";
  flow = str "xtls-rprx-vision";
  encryption = str "none";
}

abbrev outbound : Outbound
outbound = record {
  tag = str "out";
  protocol = str "vless";
  settings = some (of_vless vless);
  stream = ws_tls;
  send_through = undefined;
  mux = record Mux.new { enabled = bool true };
}

-- JSON can write the outbound with any multiplexing that it can write.
with_mux-IsJson :
    (m : Mux.Mux)
    → (truthy m.enabled ≡ true → Mux.IsJson m)
    → IsJson calls (of_vless vless) (record outbound { mux = m })
unfolding is_json
with_mux-IsJson m h = record {
  tag = refl;
  protocol = refl;
  settings = refl;
  settings_json = record {
    address = refl;
    port = refl;
    id = refl;
    flow = refl;
    encryption = refl;
    testpre = refl;
    testseed = refl;
  };
  stream = λ e. ws_tls-IsJson;
  sockopt = ws_tls-IsJson.sockopt;
  send_through = refl;
  mux = h;
}

mux-IsJson : Mux.IsJson outbound.mux
unfolding is_json
mux-IsJson = record {
  enabled = refl;
  concurrency = refl;
  xudp_concurrency = refl;
  xudp_proxy_udp443 = refl;
}

outbound-IsJson : IsJson calls (of_vless vless) outbound
outbound-IsJson = with_mux-IsJson outbound.mux (λ e. mux-IsJson)

from_json-to_json_outbound_example :
    (v : Value) × (to_json calls outbound ≡ ok v)
    × (from_json calls (erase v) ≡ ok (kept calls (of_vless vless) outbound))
from_json-to_json_outbound_example =
    from_json-to_json_outbound calls (of_vless vless) outbound outbound-IsJson

-- What `canEnableMux` leaves of the outbound, and its JSON.
abbrev unmultiplexed : Outbound
unmultiplexed = record outbound { mux = Mux.new }

unmultiplexed-IsJson : IsJson calls (of_vless vless) unmultiplexed
unmultiplexed-IsJson = with_mux-IsJson Mux.new (λ e. cc)

abbrev written :
    (v : Value) × (to_json calls unmultiplexed ≡ ok v)
    × (from_json calls (erase v) ≡ ok (kept calls (of_vless vless) unmultiplexed))
written = from_json-to_json_outbound calls (of_vless vless) unmultiplexed unmultiplexed-IsJson

disabled_at : can_enable_mux outbound ≡ ok (unmultiplexed, false)
unfolding can_enable_mux
disabled_at = refl

can_enable_mux-to_json_example : member "mux" (written.0) ≡ undefined
can_enable_mux-to_json_example =
    can_enable_mux-to_json calls outbound unmultiplexed (written.0) disabled_at refl (written.1)

abbrev wireguard : WireguardSettings
wireguard = record {
  mtu = null;
  secret_key = str "S=";
  pub_key = str "K=";
  address = str "10.0.0.2/32,fd00::2/128";
  workers = nat 2;
  domain_strategy = str "ForceIP";
  reserved = str "7,7";
  peers = record Peer.new { public_key = str "P="; allowed_ips = str "" } ∷ [];
  no_kernel_tun = bool false;
}

wireguard-IsJson : WireguardTrip.IsJson calls wireguard
unfolding is_json split item_text show_ℕ show_ℤ
wireguard-IsJson = record {
  mtu = refl;
  secret_key = refl;
  pub_key = refl;
  address = refl;
  workers = refl;
  domain_strategy = refl;
  reserved = ("7,7", refl, λ e. ((refl, refl), ((refl, refl), tt)));
  peers = (
    record {
      public_key = refl;
      psk = refl;
      allowed_ips = refl;
      endpoint = refl;
      keep_alive = refl;
    },
    tt,
  );
  no_kernel_tun = refl;
}

from_json-to_json_wireguard_outbound_example :
    (v : Value) × (Wireguard.to_json calls wireguard ≡ ok v)
    × (Wireguard.from_json calls (erase v) ≡ ok (WireguardTrip.kept wireguard))
from_json-to_json_wireguard_outbound_example =
    WireguardTrip.from_json-to_json_wireguard_outbound calls wireguard wireguard-IsJson
