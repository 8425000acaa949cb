-- ===== src/Outbound/VmessLink/Carried.antt =====
-- What the link of a VMess inbound (web/assets/js/model/inbound.js) tells the outbound that is made of it
-- (web/assets/js/model/outbound.js): the server, the user, the network with its path and host, and TLS.
use ax_ui.Common.{◌≡◌, Bool, true, false, List, [], ◌∷◌, String, ◌==◌, some, if◌then◌else◌}
use ax_ui.Common.Int.{ℤ}
use ax_ui.Js.{
  Value, undefined, bool, num, str, arr, strings, default, truthy, or_value, equals_text, is_string,
  is_array, join_text,
}
use ax_ui.Js.Json.{is_json, is_optional}
use ax_ui.Js.Joined.{none_has_char}
use ax_ui.Js.Operators.{comma}
use ax_ui.ObjectUtil.{is_empty}
use ax_ui.Stream.Tls as InboundTls
use ax_ui.Stream.Settings as InboundStream
use ax_ui.Inbound.Model.{Inbound}
use ax_ui.Inbound.VmessLink.{
  Share, Network, network_of, tcp, kcp, ws, grpc, httpupgrade, xhttp, other, chosen_tls, host_of,
  get_header,
}
use ax_ui.Outbound.Protocol.{of_vmess}
use ax_ui.Outbound.Mux
use ax_ui.Outbound.Stream.Tls
use ax_ui.Outbound.Stream.Kcp
use ax_ui.Outbound.Stream.Ws
use ax_ui.Outbound.Stream.Xhttp
use ax_ui.Outbound.Stream.Settings as Stream
use ax_ui.Outbound.Model.{Outbound}

-- A text for an array, and the elements between commas.
abbrev pub joined : Value → Value
joined (arr vs) = str (join_text "," vs)
joined v = v

abbrev pub or_empty : Value → Value
or_empty v = if is_empty v then str "" else v

-- The transport: the mode of XHTTP is not among what is carried.
abbrev pub carried_part :
    (String → String)
    → InboundStream.StreamSettings
    → Stream.StreamSettings
    → Network
    → Stream.StreamSettings
carried_part lower i s tcp = record s {
  tcp = record {
    type = i.tcp.type;
    host =
        if equals_text i.tcp.type "http"
        then or_value (get_header lower i.tcp.request.headers "host") (str "")
        else str "";
    path = if equals_text i.tcp.type "http" then joined i.tcp.request.path else str "";
  };
}
carried_part lower i s kcp = record s { kcp = Kcp.new }
carried_part lower i s ws = record s {
  ws = record Ws.new { path = i.ws.path; host = host_of lower i.ws.host i.ws.headers };
}
carried_part lower i s grpc = record s {
  grpc = record {
    service_name = i.grpc.service_name;
    authority = i.grpc.authority;
    multi_mode = bool (truthy i.grpc.multi_mode);
  };
}
carried_part lower i s httpupgrade = record s {
  httpupgrade = record {
    path = i.httpupgrade.path;
    host = host_of lower i.httpupgrade.host i.httpupgrade.headers;
  };
}
carried_part lower i s xhttp = record s {
  xhttp = record Xhttp.new {
    path = i.xhttp.path;
    host = host_of lower i.xhttp.host i.xhttp.headers;
  };
}
carried_part lower i s other = s

abbrev pub carried_tls : InboundTls.Tls → Tls.Tls
carried_tls s = record Tls.new {
  server_name = or_empty s.sni;
  alpn = s.alpn;
  fingerprint = or_empty s.settings.fingerprint;
}

abbrev pub is_secured : Inbound → Share → Bool
is_secured i a = equals_text (chosen_tls i a) "tls"

abbrev pub plain_stream : Inbound → Share → Stream.StreamSettings
plain_stream i a = record Stream.new { network = i.stream.network; security = chosen_tls i a }

abbrev pub secured : Inbound → Share → Stream.StreamSettings → Stream.StreamSettings
secured i a s = if is_secured i a then record s { tls = carried_tls i.stream.tls } else s

-- The outbound that the link stands for.
abbrev pub carried : (String → String) → Inbound → Share → Outbound
carried lower i a = record {
  tag = default (str "") a.remark;
  protocol = str "vmess";
  settings = some (
      of_vmess (record {
        address = default (str "") a.address;
        port = default i.port a.port;
        id = a.client_id;
        security = a.security;
      }));
  stream =
      secured i a (carried_part lower i.stream (plain_stream i a) (network_of i.stream.network));
  send_through = undefined;
  mux = Mux.new;
}

-- JSON can write what the link has of the transport; for HTTP over TCP the path is an array.
abbrev pub TransportIsJson : (String → String) → InboundStream.StreamSettings → Network → Type 0
TransportIsJson lower s tcp =
    (is_json s.tcp.type ≡ true)
    × (equals_text s.tcp.type "http" ≡ true → is_array s.tcp.request.path ≡ true)
    × (is_json (get_header lower s.tcp.request.headers "host") ≡ true)
TransportIsJson lower s kcp = Unit
TransportIsJson lower s ws =
    (is_json s.ws.path ≡ true) × (is_json (host_of lower s.ws.host s.ws.headers) ≡ true)
TransportIsJson lower s grpc =
    (is_json s.grpc.service_name ≡ true) × (is_json s.grpc.authority ≡ true)
TransportIsJson lower s httpupgrade =
    (is_json s.httpupgrade.path ≡ true)
    × (is_json (host_of lower s.httpupgrade.host s.httpupgrade.headers) ≡ true)
TransportIsJson lower s xhttp =
    (is_json s.xhttp.path ≡ true) × (is_json (host_of lower s.xhttp.host s.xhttp.headers) ≡ true)
TransportIsJson lower s other = Unit

-- Names of protocols: the first is not empty, and none has a comma in it.
abbrev pub AreNames : List String → Type 0
AreNames [] = Unit
AreNames (p ∷ ps) = ((p == "") ≡ false) × (none_has_char comma (p ∷ ps) ≡ true)

pub record TlsIsJson (s : InboundTls.Tls) : Type 0 where
  pub sni : is_json s.sni ≡ true
  pub fingerprint : is_json s.settings.fingerprint ≡ true
  pub alpn : (ps : List String) × (s.alpn ≡ arr (strings ps)) × AreNames ps

-- A link of a VMess inbound whose values JSON can write; the port is a number.
pub record IsShared (lower : String → String) (i : Inbound) (a : Share) : Type 0 where
  pub protocol : i.protocol ≡ str "vmess"
  pub remark : is_json (default (str "") a.remark) ≡ true
  pub address : is_json (default (str "") a.address) ≡ true
  pub port : (z : ℤ) × (default i.port a.port ≡ num z)
  pub client_id : is_optional a.client_id ≡ true
  pub security : is_optional a.security ≡ true
  pub network : is_json i.stream.network ≡ true
  pub tls : is_string (chosen_tls i a) ≡ true
  pub transport : TransportIsJson lower i.stream (network_of i.stream.network)
  pub tls_json : is_secured i a ≡ true → TlsIsJson i.stream.tls
