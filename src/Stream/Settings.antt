-- ===== src/Stream/Settings.antt =====
-- `StreamSettings` (web/assets/js/model/inbound.js): the transport of an inbound, of which the
-- configuration holds the parts that the network and the security use.
pub mod RoundTrip
use ax_ui.Common.{
  ◌≡◌, refl, ap, true, false, List, [], ◌∷◌, Result, ok, ◌>>=◌, Option, none, some, String, Bool,
  not, if◌then◌else◌, ℕ, All, Bool-cases, inl, inr,
}
use ax_ui.Js.{Value, undefined, str, arr, obj, nil, entries, default, equals_text}
use ax_ui.Js.Json.{erase, is_json, default-erase}
use ax_ui.Js.Part.{when}
use ax_ui.Js.Lookup.{open_json, open_json-erase, erase-undefined}
use ax_ui.Stream.Reality.{Random}
use ax_ui.Stream.Tls
use ax_ui.Stream.Reality
use ax_ui.Stream.Tcp
use ax_ui.Stream.Kcp
use ax_ui.Stream.Ws
use ax_ui.Stream.Grpc
use ax_ui.Stream.HttpUpgrade
use ax_ui.Stream.Xhttp
use ax_ui.Stream.FinalMask
use ax_ui.Stream.Sockopt

pub record StreamSettings : Type 0 where
  pub network : Value
  pub security : Value
  pub external_proxy : Value
  pub tls : Tls.Tls
  pub reality : Reality.Reality
  pub tcp : Tcp.Tcp
  pub kcp : Kcp.Kcp
  pub ws : Ws.Ws
  pub grpc : Grpc.Grpc
  pub httpupgrade : HttpUpgrade.HttpUpgrade
  pub xhttp : Xhttp.Xhttp
  pub finalmask : FinalMask.FinalMask
  pub sockopt : Option Sockopt.Sockopt

-- The constructor's default values.
abbrev pub new : Random → StreamSettings
new random = record {
  network = str "tcp";
  security = str "none";
  external_proxy = arr nil;
  tls = Tls.new;
  reality = Reality.new random;
  tcp = Tcp.new;
  kcp = Kcp.new;
  ws = Ws.new;
  grpc = Grpc.new;
  httpupgrade = HttpUpgrade.new;
  xhttp = Xhttp.new;
  finalmask = FinalMask.new;
  sockopt = none;
}

abbrev pub is_tls : StreamSettings → Bool
is_tls s = equals_text s.security "tls"

abbrev pub is_reality : StreamSettings → Bool
is_reality s = equals_text s.security "reality"

-- The setters of `isTls`, `isReality` and `sockoptSwitch`.
unfoldable pub set_tls : StreamSettings → Bool → StreamSettings
set_tls s on = record s { security = str (if on then "tls" else "none") }

unfoldable pub set_reality : StreamSettings → Bool → StreamSettings
set_reality s on = record s { security = str (if on then "reality" else "none") }

unfoldable pub set_sockopt : StreamSettings → Bool → StreamSettings
set_sockopt s on = record s { sockopt = if on then some Sockopt.new else none }

-- `addUdpMask` and `delUdpMask`.
unfoldable pub add_udp_mask : StreamSettings → Value → Result StreamSettings
add_udp_mask s type = do
  mask ← FinalMask.add_mask s.finalmask (default (str "salamander") type)
  ok (record s { finalmask = mask })

unfoldable pub del_udp_mask : StreamSettings → ℕ → StreamSettings
del_udp_mask s i = record s { finalmask = FinalMask.del_mask s.finalmask i }

abbrev is_cons {ℓ} : {A : Type ℓ} → List A → Bool
is_cons [] = false
is_cons (x ∷ xs) = true

abbrev pub has_final_mask : StreamSettings → Bool
has_final_mask s = is_cons s.finalmask.udp

unfoldable pub from_json : Random → Value → Result StreamSettings
from_json random json = do
  at ← open_json json
  tls ← Tls.from_json (at "tlsSettings")
  reality ← Reality.from_json random (at "realitySettings")
  tcp ← Tcp.from_json (at "tcpSettings")
  kcp ← Kcp.from_json (at "kcpSettings")
  ws ← Ws.from_json (at "wsSettings")
  grpc ← Grpc.from_json (at "grpcSettings")
  httpupgrade ← HttpUpgrade.from_json (at "httpupgradeSettings")
  xhttp ← Xhttp.from_json (at "xhttpSettings")
  finalmask ← FinalMask.from_json (at "finalmask")
  sockopt ← Sockopt.from_json (at "sockopt")
  ok (record {
    network = default (str "tcp") (at "network");
    security = default (str "none") (at "security");
    external_proxy = default (arr nil) (at "externalProxy");
    tls = tls;
    reality = reality;
    tcp = tcp;
    kcp = kcp;
    ws = ws;
    grpc = grpc;
    httpupgrade = httpupgrade;
    xhttp = xhttp;
    finalmask = finalmask;
    sockopt = sockopt;
  })

abbrev pub sockopt_json : Option Sockopt.Sockopt → Value
sockopt_json none = undefined
sockopt_json (some o) = Sockopt.to_json o

abbrev pub object :
    (s : StreamSettings) (tls reality tcp kcp ws grpc httpupgrade xhttp finalmask sockopt : Value)
    → Value
object s tls reality tcp kcp ws grpc httpupgrade xhttp finalmask sockopt = obj (
    entries (
      ("network", s.network)
      ∷ ("security", s.security)
      ∷ ("externalProxy", s.external_proxy)
      ∷ ("tlsSettings", tls)
      ∷ ("realitySettings", reality)
      ∷ ("tcpSettings", tcp)
      ∷ ("kcpSettings", kcp)
      ∷ ("wsSettings", ws)
      ∷ ("grpcSettings", grpc)
      ∷ ("httpupgradeSettings", httpupgrade)
      ∷ ("xhttpSettings", xhttp)
      ∷ ("finalmask", finalmask)
      ∷ ("sockopt", sockopt)
      ∷ []))

unfoldable pub to_json : StreamSettings → Result Value
to_json s = do
  tls ← when (is_tls s) (Tls.to_json s.tls)
  reality ← when (is_reality s) (Reality.to_json s.reality)
  tcp ← when (equals_text s.network "tcp") (Tcp.to_json s.tcp)
  kcp ← when (equals_text s.network "kcp") (ok (Kcp.to_json s.kcp))
  ws ← when (equals_text s.network "ws") (Ws.to_json s.ws)
  grpc ← when (equals_text s.network "grpc") (ok (Grpc.to_json s.grpc))
  httpupgrade ← when (equals_text s.network "httpupgrade") (HttpUpgrade.to_json s.httpupgrade)
  xhttp ← when (equals_text s.network "xhttp") (Xhttp.to_json s.xhttp)
  finalmask ← when (has_final_mask s) (ok (FinalMask.to_json s.finalmask))
  ok (object s tls reality tcp kcp ws grpc httpupgrade xhttp finalmask (sockopt_json s.sockopt))
