-- ===== src/Outbound/ParamLink/Carried.antt =====
-- What the link of a VLESS inbound (web/assets/js/model/inbound.js) tells the outbound that is made of it
-- (web/assets/js/model/outbound.js). The parameters of a link are texts: a value is carried as its text.
use Prim.Native.String
use ax_ui.Common.{
  ◌≡◌, Bool, true, false, not, ◌&&◌, List, [], ◌∷◌, String, ◌==◌, Option, none, some, if◌then◌else◌,
}
use ax_ui.Js.{
  Value, undefined, bool, str, arr, nil, strings, default, truthy, equals_text, is_string, is_array,
  to_text,
}
use ax_ui.Js.Operators.{comma, has_length}
use ax_ui.Js.Text.{split}
use ax_ui.ObjectUtil.{is_empty}
use ax_ui.Inbound.Settings.Vless as InboundVless
use ax_ui.Inbound.Model.{Inbound}
use ax_ui.Stream.Settings as InboundStream
use ax_ui.Inbound.VmessLink.{
  Fields, Network, network_of, tcp, kcp, ws, grpc, httpupgrade, xhttp, other, host_of,
}
use ax_ui.Inbound.VlessLink.{
  Share, Security, tls, reality, neither, chosen, security_of, shows_flow, find_host, first_text,
  Link,
}
use ax_ui.Outbound.Settings.Wireguard.{Calls}
use ax_ui.Outbound.Settings.Vless
use ax_ui.Outbound.Protocol
use ax_ui.Outbound.Mux
use ax_ui.Outbound.Stream.Tls
use ax_ui.Outbound.Stream.Reality
use ax_ui.Outbound.Stream.Kcp
use ax_ui.Outbound.Stream.Ws
use ax_ui.Outbound.Stream.Xhttp
use ax_ui.Outbound.Stream.Settings as Stream
use ax_ui.Outbound.Model.{Outbound}
use ax_ui.Outbound.ParamLink.{Opened}
use ax_ui.Outbound.VmessLink.Carried.{joined, AreNames}

abbrev pub text : Value → Value
text v = str (to_text v)

-- The text of a value that is shown, and an empty one for any other.
abbrev pub shown : Bool → Value → Value
shown b v = if b then text v else str ""

abbrev pub text_found : Option Value → Value
text_found none = undefined
text_found (some v) = text v

-- The first element of a text between commas.
unfoldable pub first_of : Value → Value
first_of (str t) = str (first_text (split comma t))
first_of v = str ""

abbrev pub carried_part :
    (String → String)
    → InboundStream.StreamSettings
    → Stream.StreamSettings
    → Network
    → Stream.StreamSettings
carried_part lower i s tcp = record s {
  tcp = record {
    type = if equals_text i.tcp.type "http" then str "http" else str "none";
    host =
        if equals_text i.tcp.type "http"
        then text_found (find_host lower i.tcp.request.headers)
        else undefined;
    path = if equals_text i.tcp.type "http" then joined i.tcp.request.path else undefined;
  };
}
carried_part lower i s kcp = record s { kcp = Kcp.new }
carried_part lower i s ws = record s {
  ws = record Ws.new { path = text i.ws.path; host = text (host_of lower i.ws.host i.ws.headers) };
}
carried_part lower i s grpc = record s {
  grpc = record {
    service_name = text i.grpc.service_name;
    authority = text i.grpc.authority;
    multi_mode = bool (truthy i.grpc.multi_mode);
  };
}
carried_part lower i s httpupgrade = record s {
  httpupgrade = record {
    path = text i.httpupgrade.path;
    host = text (host_of lower i.httpupgrade.host i.httpupgrade.headers);
  };
}
carried_part lower i s xhttp = record s {
  xhttp = record Xhttp.new {
    path = text i.xhttp.path;
    host = text (host_of lower i.xhttp.host i.xhttp.headers);
    mode = text i.xhttp.mode;
  };
}
carried_part lower i s other = s

abbrev pub has_tls : Inbound → Bool
has_tls i = equals_text i.stream.security "tls"

abbrev pub carried_tls : Inbound → Tls.Tls
carried_tls i = record Tls.new {
  server_name = shown (has_tls i && not (is_empty i.stream.tls.sni)) i.stream.tls.sni;
  alpn = if has_tls i then i.stream.tls.alpn else arr nil;
  fingerprint = if has_tls i then text i.stream.tls.settings.fingerprint else str "none";
  ech_config_list =
      shown (has_tls i && has_length i.stream.tls.settings.ech_config_list)
        i.stream.tls.settings.ech_config_list;
}

abbrev pub carried_reality : Inbound → Reality.Reality
carried_reality i = record {
  public_key = text i.stream.reality.settings.public_key;
  fingerprint = text i.stream.reality.settings.fingerprint;
  server_name = first_of i.stream.reality.server_names;
  short_id = first_of i.stream.reality.short_ids;
  spider_x =
      shown (not (is_empty i.stream.reality.settings.spider_x)) i.stream.reality.settings.spider_x;
  mldsa65_verify =
      shown (not (is_empty i.stream.reality.settings.mldsa65_verify))
        i.stream.reality.settings.mldsa65_verify;
}

abbrev pub name_of : Security → String
name_of tls = "tls"
name_of reality = "reality"
name_of neither = "none"

abbrev pub carried_security : Inbound → Stream.StreamSettings → Security → Stream.StreamSettings
carried_security i s tls = record s { tls = carried_tls i }
carried_security i s reality = record s { reality = carried_reality i }
carried_security i s neither = s

abbrev pub carried_flow : Inbound → Share → Security → Value
carried_flow i a tls = shown (has_tls i && shows_flow i a) a.flow
carried_flow i a reality = shown (shows_flow i a) a.flow
carried_flow i a neither = str ""

-- The remark, or `out-`, the protocol and the port where it is empty.
abbrev pub carried_tag : (protocol remark port : String) → Value
carried_tag protocol remark port =
    if remark == ""
    then str (String.◌++◌ "out-" (String.◌++◌ protocol (String.◌++◌ "-" port)))
    else str remark

abbrev pub carried_port : Calls → Value → Value
carried_port calls port = calls.number (to_text port)

abbrev pub linked_stream : Inbound → Security → Stream.StreamSettings
linked_stream i k = record Stream.new { network = i.stream.network; security = str (name_of k) }

abbrev pub carried_stream : (String → String) → Inbound → Security → Stream.StreamSettings
carried_stream lower i k =
    carried_security i
      (carried_part lower i.stream (linked_stream i k) (network_of i.stream.network)) k

-- The outbound that the link stands for.
abbrev pub carried :
    Calls → (String → String) → Inbound → Share → InboundVless.VlessSettings → Outbound
carried calls lower i a s = record {
  tag =
      carried_tag "vless" (to_text (default (str "") a.remark))
        (to_text (carried_port calls (default i.port a.port)));
  protocol = str "vless";
  settings = some (
      Protocol.of_vless (record Vless.new {
        address = text (default (str "") a.address);
        port = carried_port calls (default i.port a.port);
        id = text a.client_id;
        flow = carried_flow i a (security_of (chosen i a.force_tls));
        encryption = text s.encryption;
      }));
  stream = carried_stream lower i (security_of (chosen i a.force_tls));
  send_through = undefined;
  mux = Mux.new;
}

-- A network that is a text and not `none`; the path of HTTP over TCP is an array, the names of the protocols
-- of TLS and of the servers of Reality are as the form writes them.
pub record IsShared (i : Inbound) (k : Security) : Type 0 where
  pub network : (n : String) × (i.stream.network ≡ str n) × ((n == "none") ≡ false)
  pub path : equals_text i.stream.tcp.type "http" ≡ true → is_array i.stream.tcp.request.path ≡ true
  pub names :
      has_tls i ≡ true → (ps : List String) × (i.stream.tls.alpn ≡ arr (strings ps)) × AreNames ps
  pub server_names : k ≡ reality → is_string i.stream.reality.server_names ≡ true
  pub short_ids : k ≡ reality → is_string i.stream.reality.short_ids ≡ true

-- The text of a parameter that is set.
abbrev pub text_at : String → Fields → Option String
text_at k [] = none
text_at k ((b, j, v) ∷ fs) = if j == k then (if b then some (to_text v) else none) else text_at k fs

abbrev pub hash_of : String → String
hash_of t = if t == "" then "" else String.◌∷◌ "#" t

-- The browser opens the text of a link: a parameter is the text that was set, the hash is the remark, and
-- the expression finds the four parts.
pub record IsOpened (protocol : String) (l : Link) (x : Opened) : Type 0 where
  pub get : (k : String) → x.get k ≡ text_at k l.params
  pub hash : x.hash ≡ hash_of (to_text l.remark)
  pub found :
      x.found
      ≡ some (record {
        protocol = protocol;
        user_data = to_text l.user;
        address = to_text l.address;
        port = to_text l.port;
      })
