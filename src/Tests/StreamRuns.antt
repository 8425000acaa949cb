-- ===== src/Tests/StreamRuns.antt =====
-- Transport settings (web/assets/js/model/inbound.js).
use ax_ui.Common.{◌≡◌, refl, [], ◌∷◌, ok, some}
use ax_ui.Js.{Value, str}
use ax_ui.Js.Json.{erase, is_json}
use ax_ui.Headers.{header, inherited}
use ax_ui.Stream.Reality.{Random}
use ax_ui.Stream.Ws
use ax_ui.Stream.Sockopt
use ax_ui.Stream.Settings.{StreamSettings, new, from_json, to_json}
use ax_ui.Stream.Settings.RoundTrip.{IsJson, kept, from_json-to_json}

abbrev pub random : Random
random = record { short_ids = str "ab,cd"; target = str "www.apple.com:443"; sni = str "apple.com" }

-- A WebSocket transport over TLS, with a header and socket options.
abbrev pub ws_tls : StreamSettings
ws_tls = record (new random) {
  network = str "ws";
  security = str "tls";
  ws = record Ws.new { headers = header "Host" (str "example.com") ∷ [] };
  sockopt = some Sockopt.new;
}

pub ws_tls-IsJson : IsJson ws_tls
unfolding is_json inherited
ws_tls-IsJson = record {
  network = refl;
  security = refl;
  external_proxy = refl;
  tls = λ e. record {
    sni = refl;
    min_version = refl;
    max_version = refl;
    cipher_suites = refl;
    reject_unknown_sni = refl;
    disable_system_root = refl;
    enable_session_resumption = refl;
    certs = (
      record {
        cert_file = refl;
        key_file = refl;
        cert = refl;
        key = refl;
        one_time_loading = refl;
        usage = refl;
        build_chain = refl;
      },
      tt,
    );
    alpn = refl;
    ech_server_keys = refl;
    ech_force_query = refl;
    settings = record { fingerprint = refl; ech_config_list = refl };
  };
  reality = λ e. cc;
  tcp = λ e. cc;
  kcp = λ e. cc;
  ws = λ e. record {
    accept_proxy_protocol = refl;
    path = refl;
    host = refl;
    headers = refl;
    heartbeat_period = refl;
  };
  grpc = λ e. cc;
  httpupgrade = λ e. cc;
  xhttp = λ e. cc;
  finalmask = λ e. cc;
  sockopt = record {
    accept_proxy_protocol = refl;
    tcp_fast_open = refl;
    mark = refl;
    tproxy = refl;
    tcp_mptcp = refl;
    penetrate = refl;
    domain_strategy = refl;
    tcp_max_seg = refl;
    dialer_proxy = refl;
    tcp_keep_alive_interval = refl;
    tcp_keep_alive_idle = refl;
    tcp_user_timeout = refl;
    tcpcongestion = refl;
    v6_only = refl;
    tcp_window_clamp = refl;
    interface_name = refl;
    trusted_x_forwarded_for = refl;
    trusted_x_forwarded_for_array = refl;
  };
}

from_json-to_json_example :
    (v : Value) × (to_json ws_tls ≡ ok v) × (from_json random (erase v) ≡ ok (kept random ws_tls))
from_json-to_json_example = from_json-to_json random ws_tls ws_tls-IsJson
