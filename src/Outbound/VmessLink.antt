-- ===== src/Outbound/VmessLink.antt =====
-- `Outbound.fromVmessLink` (web/assets/js/model/outbound.js): an outbound from the object that a VMess link
-- holds. For KCP the code also sets `type` and `seed` on the transport settings themselves, where no
-- method of theirs reads them; they are left out.
pub mod Carried
pub mod Values
pub mod Transport
pub mod RoundTrip
use Prim.Native.Char.{Char}
use ax_ui.Common.{
  ◌≡◌, Bool, true, false, not, ◌&&◌, List, [], ◌∷◌, String, Option, none, some, Result, ok,
  type_error, ◌>>=◌, if◌then◌else◌,
}
use ax_ui.Js.{Value, undefined, bool, str, arr, nil, strings, default, truthy, equals_loose}
use ax_ui.Js.Lookup.{open_json}
use ax_ui.Js.Operators.{or_nullish, times_one, comma}
use ax_ui.Js.Text.{split}
use ax_ui.Inbound.VmessLink.{Network, network_of, tcp, kcp, ws, grpc, httpupgrade, xhttp, other}
use ax_ui.Outbound.Settings.Wireguard.{Calls}
use ax_ui.Outbound.Protocol.{of_vmess}
use ax_ui.Outbound.Stream.Tls
use ax_ui.Outbound.Stream.Tcp
use ax_ui.Outbound.Stream.Kcp
use ax_ui.Outbound.Stream.Ws
use ax_ui.Outbound.Stream.Grpc
use ax_ui.Outbound.Stream.HttpUpgrade
use ax_ui.Outbound.Stream.Xhttp
use ax_ui.Outbound.Stream.Settings as Stream
use ax_ui.Outbound.Model.{Outbound, create}

-- The transport settings of the network.
abbrev pub read_transport :
    (String → Value) → Stream.StreamSettings → Network → Stream.StreamSettings
read_transport at s tcp = record s {
  tcp = record {
    type = default Tcp.new.type (at "type");
    host = or_nullish (at "host") (str "");
    path = or_nullish (at "path") (str "");
  };
}
read_transport at s kcp = record s { kcp = Kcp.new }
read_transport at s ws = record s {
  ws = record Ws.new {
    path = default Ws.new.path (at "path");
    host = default Ws.new.host (at "host");
  };
}
read_transport at s grpc = record s {
  grpc = record {
    service_name = default Grpc.new.service_name (at "path");
    authority = default Grpc.new.authority (at "authority");
    multi_mode = bool (equals_loose (at "type") "multi");
  };
}
read_transport at s httpupgrade = record s {
  httpupgrade = record {
    path = default HttpUpgrade.new.path (at "path");
    host = default HttpUpgrade.new.host (at "host");
  };
}
read_transport at s xhttp = record s {
  xhttp = record Xhttp.new {
    path = default Xhttp.new.path (at "path");
    host = default Xhttp.new.host (at "host");
    mode = default Xhttp.new.mode (at "mode");
  };
}
read_transport at s other = s

-- `v ? v.split(',') : []`; of the truthy values only a text has `split`.
unfoldable pub split_truthy : Value → Result Value
split_truthy (str s) = ok (if truthy (str s) then arr (strings (split comma s)) else arr nil)
split_truthy v = if truthy v then type_error else ok (arr nil)

unfoldable pub read_tls : (String → Value) → Stream.StreamSettings → Result Stream.StreamSettings
read_tls at s =
    if truthy (at "tls") && equals_loose (at "tls") "tls"
    then (do
      alpn ← split_truthy (at "alpn")
      ok (record s {
        tls = record Tls.new {
          server_name = default Tls.new.server_name (at "sni");
          alpn = alpn;
          fingerprint = default Tls.new.fingerprint (at "fp");
        };
      }))
    else ok s

-- The outbound, given the properties of the link.
abbrev pub read_link : Calls → (String → Value) → Result Outbound
read_link calls at = do
  stream ←
      read_tls at (read_transport at (Stream.create (at "net") (at "tls")) (network_of (at "net")))
  create calls (at "ps") (str "vmess")
      (some (
        of_vmess (record {
          address = at "add";
          port = times_one calls.number (at "port");
          id = at "id";
          security = at "scy";
        })))
      stream undefined none

unfoldable pub from_vmess_link : Calls → Value → Result Outbound
from_vmess_link calls json = do at ← open_json json; read_link calls at
