-- ===== src/Outbound/Stream/Settings.antt =====
-- `StreamSettings` (web/assets/js/model/outbound.js).
pub mod RoundTrip
use ax_ui.Common.{
  Bool, true, false, List, [], ◌∷◌, ℕ, Result, ok, ◌>>=◌, Option, none, some, if◌then◌else◌,
}
use ax_ui.Js.{Value, undefined, str, obj, entries, default, equals_text, equals_loose}
use ax_ui.Js.Lookup.{open_json}
use ax_ui.Js.Part.{when}
use ax_ui.Outbound.Stream.Tls
use ax_ui.Outbound.Stream.Reality
use ax_ui.Outbound.Stream.Tcp
use ax_ui.Outbound.Stream.Kcp
use ax_ui.Outbound.Stream.Ws
use ax_ui.Outbound.Stream.Grpc
use ax_ui.Outbound.Stream.HttpUpgrade
use ax_ui.Outbound.Stream.Xhttp
use ax_ui.Outbound.Stream.Hysteria
use ax_ui.Outbound.Stream.FinalMask
use ax_ui.Outbound.Stream.Sockopt

pub record StreamSettings : Type 0 where
  pub network : Value
  pub security : Value
  pub tls : Tls.Tls
  pub reality : Reality.Reality
  pub tcp : Tcp.Tcp
  pub kcp : Kcp.Kcp
  pub ws : Ws.Ws
  pub grpc : Grpc.Grpc
  pub httpupgrade : HttpUpgrade.HttpUpgrade
  pub xhttp : Xhttp.Xhttp
  pub hysteria : Hysteria.Hysteria
  pub finalmask : FinalMask.FinalMask
  pub sockopt : Option Sockopt.Sockopt

-- The constructor with no argument.
abbrev pub new : StreamSettings
new = record {
  network = str "tcp";
  security = str "none";
  tls = Tls.new;
  reality = Reality.new;
  tcp = Tcp.new;
  kcp = Kcp.new;
  ws = Ws.new;
  grpc = Grpc.new;
  httpupgrade = HttpUpgrade.new;
  xhttp = Xhttp.new;
  hysteria = Hysteria.new;
  finalmask = FinalMask.new;
  sockopt = none;
}

-- The constructor with a network and a security.
abbrev pub create : Value → Value → StreamSettings
create network security = record new {
  network = default (str "tcp") network;
  security = default (str "none") security;
}

abbrev pub is_tls : StreamSettings → Bool
is_tls s = equals_text s.security "tls"

abbrev pub is_reality : StreamSettings → Bool
is_reality s = equals_text s.security "reality"

-- The setter of `sockoptSwitch`.
unfoldable pub set_sockopt : StreamSettings → Bool → StreamSettings
set_sockopt s on = record s { sockopt = if on then some Sockopt.new else none }

-- `addUdpMask` and `delUdpMask`.
unfoldable pub add_udp_mask : StreamSettings → Value → Result StreamSettings
add_udp_mask s type = do
  mask ← FinalMask.add_mask s.finalmask (default (str "salamander") type)
  ok (record s { finalmask = mask })

unfoldable pub del_udp_mask : StreamSettings → ℕ → StreamSettings
del_udp_mask s i = record s { finalmask = FinalMask.del_mask s.finalmask i }

abbrev is_cons {ℓ} : {A : Type ℓ} → List A → Bool
is_cons [] = false
is_cons (x ∷ xs) = true

abbrev pub has_final_mask : StreamSettings → Bool
has_final_mask s = is_cons s.finalmask.udp

unfoldable pub from_json : Value → Result StreamSettings
from_json json = do
  at ← open_json json
  tls ← Tls.from_json (at "tlsSettings")
  reality ← Reality.from_json (at "realitySettings")
  tcp ← Tcp.from_json (at "tcpSettings")
  kcp ← Kcp.from_json (at "kcpSettings")
  ws ← Ws.from_json (at "wsSettings")
  grpc ← Grpc.from_json (at "grpcSettings")
  httpupgrade ← HttpUpgrade.from_json (at "httpupgradeSettings")
  xhttp ← Xhttp.from_json (at "xhttpSettings")
  hysteria ← Hysteria.from_json (at "hysteriaSettings")
  finalmask ← FinalMask.from_json (at "finalmask")
  sockopt ← Sockopt.from_json (at "sockopt")
  ok (record {
    network = default (str "tcp") (at "network");
    security = default (str "none") (at "security");
    tls = tls;
    reality = reality;
    tcp = tcp;
    kcp = kcp;
    ws = ws;
    grpc = grpc;
    httpupgrade = httpupgrade;
    xhttp = xhttp;
    hysteria = hysteria;
    finalmask = finalmask;
    sockopt = sockopt;
  })

abbrev pub sockopt_json : Option Sockopt.Sockopt → Value
sockopt_json none = undefined
sockopt_json (some o) = Sockopt.to_json o

abbrev pub object :
    (s : StreamSettings)
    (tls reality tcp kcp ws grpc httpupgrade xhttp hysteria finalmask sockopt : Value)
    → Value
object s tls reality tcp kcp ws grpc httpupgrade xhttp hysteria finalmask sockopt = obj (
    entries (
      ("network", s.network)
      ∷ ("security", s.security)
      ∷ ("tlsSettings", tls)
      ∷ ("realitySettings", reality)
      ∷ ("tcpSettings", tcp)
      ∷ ("kcpSettings", kcp)
      ∷ ("wsSettings", ws)
      ∷ ("grpcSettings", grpc)
      ∷ ("httpupgradeSettings", httpupgrade)
      ∷ ("xhttpSettings", xhttp)
      ∷ ("hysteriaSettings", hysteria)
      ∷ ("finalmask", finalmask)
      ∷ ("sockopt", sockopt)
      ∷ []))

unfoldable pub to_json : StreamSettings → Result Value
to_json s = do
  tls ← when (equals_loose s.security "tls") (ok (Tls.to_json s.tls))
  reality ← when (equals_loose s.security "reality") (ok (Reality.to_json s.reality))
  tcp ← when (equals_text s.network "tcp") (Tcp.to_json s.tcp)
  kcp ← when (equals_text s.network "kcp") (ok (Kcp.to_json s.kcp))
  ws ← when (equals_text s.network "ws") (ok (Ws.to_json s.ws))
  grpc ← when (equals_text s.network "grpc") (ok (Grpc.to_json s.grpc))
  httpupgrade ← when (equals_text s.network "httpupgrade") (ok (HttpUpgrade.to_json s.httpupgrade))
  xhttp ← when (equals_text s.network "xhttp") (Xhttp.to_json s.xhttp)
  hysteria ← when (equals_text s.network "hysteria") (ok (Hysteria.to_json s.hysteria))
  finalmask ← when (has_final_mask s) (ok (FinalMask.to_json s.finalmask))
  ok (
      object s tls reality tcp kcp ws grpc httpupgrade xhttp hysteria finalmask
        (sockopt_json s.sockopt))
