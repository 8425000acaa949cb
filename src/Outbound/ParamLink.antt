-- ===== src/Outbound/ParamLink.antt =====
-- `Outbound.fromParamLink` (web/assets/js/model/outbound.js): an outbound from a link with parameters, given
-- what the browser's URL and the regular expression find in its text. For KCP the code also sets `type` and
-- `seed` on settings that have no such field, where nothing reads them; they are left out.
pub mod Carried
pub mod Lookup
pub mod Transport
pub mod Security
pub mod Streams
pub mod Trojan
pub mod RoundTrip
use Prim.Native.Char.{Char}
use Prim.Native.String
use ax_ui.Common.{
  ◌≡◌, Bool, true, false, not, ◌&&◌, List, [], ◌∷◌, String, ◌==◌, Option, none, some, Result, ok,
  type_error, ◌>>=◌, if◌then◌else◌,
}
use ax_ui.Js.{
  Value, undefined, null, bool, nat, str, arr, nil, strings, default, join_text, to_text,
}
use ax_ui.Js.Operators.{times_one, comma}
use ax_ui.Js.Text.{split}
use ax_ui.Inbound.VmessLink.{Network, network_of, tcp, kcp, ws, grpc, httpupgrade, xhttp, other}
use ax_ui.Outbound.Settings.Wireguard.{Calls}
use ax_ui.Outbound.Settings.Vless
use ax_ui.Outbound.Protocol
use ax_ui.Outbound.Protocol.{of_vless, of_trojan, of_shadowsocks}
use ax_ui.Outbound.Stream.Tls
use ax_ui.Outbound.Stream.Reality
use ax_ui.Outbound.Stream.Tcp
use ax_ui.Outbound.Stream.Kcp
use ax_ui.Outbound.Stream.Ws
use ax_ui.Outbound.Stream.Grpc
use ax_ui.Outbound.Stream.HttpUpgrade
use ax_ui.Outbound.Stream.Xhttp
use ax_ui.Outbound.Stream.Settings as Stream
use ax_ui.Outbound.Model.{Outbound, create}

-- What the regular expression finds.
pub record Match : Type 0 where
  pub protocol : String
  pub user_data : String
  pub address : String
  pub port : String

-- The link in the browser: `url.searchParams.get`, where `none` stands for `null`, the decoded `url.hash`,
-- and the match, where there is one.
pub record Opened : Type 0 where
  pub get : String → Option String
  pub hash : String
  pub found : Option Match

-- `v ?? text`, `v ?? undefined`, and `v` itself.
abbrev pub text_or : String → Option String → String
text_or d none = d
text_or d (some t) = t

abbrev pub or_undefined : Option String → Value
or_undefined none = undefined
or_undefined (some t) = str t

abbrev pub or_null : Option String → Value
or_null none = null
or_null (some t) = str t

abbrev pub is_text : String → Option String → Bool
is_text t none = false
is_text t (some s) = s == t

-- The branches on the type: `none` is read as `tcp`.
unfoldable pub network_read : String → Network
network_read t = if t == "none" then tcp else network_of (str t)

-- The transport settings of the network.
abbrev pub read_transport :
    (String → Option String) → Stream.StreamSettings → Network → Stream.StreamSettings
read_transport get s tcp = record s {
  tcp = record {
    type = str (text_or "none" (get "headerType"));
    host = or_undefined (get "host");
    path = or_undefined (get "path");
  };
}
read_transport get s kcp = record s { kcp = Kcp.new }
read_transport get s ws = record s {
  ws = record Ws.new {
    path = default Ws.new.path (or_undefined (get "path"));
    host = default Ws.new.host (or_undefined (get "host"));
  };
}
read_transport get s grpc = record s {
  grpc = record {
    service_name = str (text_or "" (get "serviceName"));
    authority = str (text_or "" (get "authority"));
    multi_mode = bool (is_text "multi" (get "mode"));
  };
}
read_transport get s httpupgrade = record s {
  httpupgrade = record {
    path = default HttpUpgrade.new.path (or_undefined (get "path"));
    host = default HttpUpgrade.new.host (or_undefined (get "host"));
  };
}
read_transport get s xhttp = record s {
  xhttp = record Xhttp.new {
    path = default Xhttp.new.path (or_undefined (get "path"));
    host = default Xhttp.new.host (or_undefined (get "host"));
    mode = default Xhttp.new.mode (or_undefined (get "mode"));
  };
}
read_transport get s other = s

-- `alpn ? alpn.split(',') : []`
unfoldable pub split_names : Option String → Value
split_names none = arr nil
split_names (some t) = if t == "" then arr nil else arr (strings (split comma t))

abbrev pub read_tls : (String → Option String) → Tls.Tls
read_tls get = record Tls.new {
  server_name = str (text_or "" (get "sni"));
  alpn = split_names (get "alpn");
  fingerprint = str (text_or "none" (get "fp"));
  ech_config_list = str (text_or "" (get "ech"));
}

abbrev pub read_reality : (String → Option String) → Reality.Reality
read_reality get = record {
  public_key = or_null (get "pbk");
  fingerprint = or_null (get "fp");
  server_name = str (text_or "" (get "sni"));
  short_id = str (text_or "" (get "sid"));
  spider_x = str (text_or "" (get "spx"));
  mldsa65_verify = str (text_or "" (get "pqv"));
}

unfoldable pub read_security :
    (String → Option String) → String → Stream.StreamSettings → Stream.StreamSettings
read_security get security s =
    if security == "tls"
    then record s { tls = read_tls get }
    else if security == "reality"
    then record s { reality = read_reality get }
    else s

-- `userData.splice(0, 1)[0]`, and the rest joined by colons.
abbrev pub method_of : List String → Value
method_of [] = undefined
method_of (m ∷ ms) = str m

abbrev pub password_of : List String → Value
password_of [] = str ""
password_of (m ∷ ms) = str (join_text ":" (strings ms))

abbrev pub colon : Char
colon = ":"

-- The settings of the protocol, `none` for any other; a text, which is what the user of the protocol
-- `shadowsocks` is, has no `splice`.
unfoldable pub read_settings :
    (String → String) → (String → Option String) → Match → Value → Result (Option Protocol.Settings)
read_settings atob get m port =
    if m.protocol == "vless"
    then ok (
        some (
          of_vless (record Vless.new {
            address = str m.address;
            port = port;
            id = str m.user_data;
            flow = str (text_or "" (get "flow"));
            encryption = str (text_or "none" (get "encryption"));
          })))
    else if m.protocol == "trojan"
    then ok (
        some
          (of_trojan (record { address = str m.address; port = port; password = str m.user_data })))
    else if m.protocol == "ss"
    then ok (
        some (
          of_shadowsocks (record {
            address = str m.address;
            port = port;
            password = password_of (split colon (atob m.user_data));
            method = method_of (split colon (atob m.user_data));
            uot = bool true;
            uot_version = undefined;
          })))
    else if m.protocol == "shadowsocks"
    then type_error
    else ok none

-- `protocol`, once `ss` stands for `shadowsocks`.
abbrev pub protocol_name : String → String
protocol_name p = if p == "ss" then "shadowsocks" else p

-- `text.substring(1)`
abbrev pub substring_one : String → String
substring_one String.[] = ""
substring_one (String.◌∷◌ c s) = s

unfoldable pub remark_of : String → String → Value → String
remark_of hash protocol port =
    if hash == ""
    then String.◌++◌ "out-" (String.◌++◌ protocol (String.◌++◌ "-" (to_text port)))
    else substring_one hash

abbrev pub finish :
    Calls
    → String
    → Match
    → Value
    → Stream.StreamSettings
    → Option Protocol.Settings
    → Result (Option Outbound)
finish calls hash m port stream none = ok none
finish calls hash m port stream (some s) = do
  o ←
      create calls (str (remark_of hash (protocol_name m.protocol) port))
        (str (protocol_name m.protocol)) (some s) stream undefined none
  ok (some o)

abbrev pub read_match :
    Calls
    → (String → String)
    → Opened
    → Stream.StreamSettings
    → Option Match
    → Result (Option Outbound)
read_match calls atob x stream none = ok none
read_match calls atob x stream (some m) = do
  settings ← read_settings atob x.get m (times_one calls.number (str m.port))
  finish calls x.hash m (times_one calls.number (str m.port)) stream settings

-- The transport settings that the parameters describe.
abbrev pub read_stream : (String → Option String) → Stream.StreamSettings
read_stream get =
    let type = text_or "tcp" (get "type") in
    let security = text_or "none" (get "security") in
    read_security get security
      (read_transport get (Stream.create (str type) (str security)) (network_read type))

unfoldable pub from_param_link : Calls → (String → String) → Opened → Result (Option Outbound)
from_param_link calls atob x = read_match calls atob x (read_stream x.get) x.found
