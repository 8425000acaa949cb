-- ===== src/Stream/Settings/RoundTrip.antt =====
-- `StreamSettings` (web/assets/js/model/inbound.js) through `toJson`, JSON and `fromJson`.
use ax_ui.Common.{◌≡◌, refl, true, ok, Option, none, some, if◌then◌else◌, All}
use ax_ui.Js.{Value, undefined, equals_text}
use ax_ui.Js.Json.{erase, is_json, default-erase}
use ax_ui.Js.Part.{part_back}
use ax_ui.Js.Lookup.{open_json-erase, open_json-undefined, erase-undefined}
use ax_ui.Stream.Reality.{Random}
use ax_ui.Stream.Settings.{
  StreamSettings, new, is_tls, is_reality, has_final_mask, from_json, to_json, object, sockopt_json,
}
use ax_ui.Stream.Tls
use ax_ui.Stream.Reality
use ax_ui.Stream.Tcp
use ax_ui.Stream.Kcp
use ax_ui.Stream.Ws
use ax_ui.Stream.Grpc
use ax_ui.Stream.HttpUpgrade
use ax_ui.Stream.Xhttp
use ax_ui.Stream.FinalMask
use ax_ui.Stream.FinalMask.RoundTrip as MaskTrip
use ax_ui.Stream.Sockopt

-- The socket options, if there are any, hold values that JSON can write.
abbrev pub SockoptIsJson : Option Sockopt.Sockopt → Type 0
SockoptIsJson none = Unit
SockoptIsJson (some o) = Sockopt.IsJson o

-- JSON can write the settings: the three values, and each part that is in use.
pub record IsJson (s : StreamSettings) : Type 0 where
  pub network : is_json s.network ≡ true
  pub security : is_json s.security ≡ true
  pub external_proxy : is_json s.external_proxy ≡ true
  pub tls : is_tls s ≡ true → Tls.IsJson s.tls
  pub reality : is_reality s ≡ true → Reality.IsJson s.reality
  pub tcp : equals_text s.network "tcp" ≡ true → Tcp.IsJson s.tcp
  pub kcp : equals_text s.network "kcp" ≡ true → Kcp.IsJson s.kcp
  pub ws : equals_text s.network "ws" ≡ true → Ws.IsJson s.ws
  pub grpc : equals_text s.network "grpc" ≡ true → Grpc.IsJson s.grpc
  pub httpupgrade : equals_text s.network "httpupgrade" ≡ true → HttpUpgrade.IsJson s.httpupgrade
  pub xhttp : equals_text s.network "xhttp" ≡ true → Xhttp.IsJson s.xhttp
  pub finalmask : has_final_mask s ≡ true → All MaskTrip.IsJson s.finalmask.udp
  pub sockopt : SockoptIsJson s.sockopt

-- What is kept of the settings: the parts in use, and the default for every other one.
abbrev pub kept : Random → StreamSettings → StreamSettings
kept random s = record s {
  tls = if is_tls s then Tls.kept s.tls else Tls.new;
  reality = if is_reality s then s.reality else Reality.new random;
  tcp = if equals_text s.network "tcp" then Tcp.kept s.tcp else Tcp.new;
  kcp = if equals_text s.network "kcp" then s.kcp else Kcp.new;
  ws = if equals_text s.network "ws" then s.ws else Ws.new;
  grpc = if equals_text s.network "grpc" then s.grpc else Grpc.new;
  httpupgrade = if equals_text s.network "httpupgrade" then s.httpupgrade else HttpUpgrade.new;
  xhttp = if equals_text s.network "xhttp" then s.xhttp else Xhttp.new;
  finalmask = if has_final_mask s then s.finalmask else FinalMask.new;
}

sockopt_back :
    (o : Option Sockopt.Sockopt)
    → SockoptIsJson o
    → Sockopt.from_json (erase (sockopt_json o)) ≡ ok o
sockopt_back none h = rw erase-undefined Sockopt.from_json-undefined
sockopt_back (some o) h = Sockopt.from_json-to_json o h

-- `fromJson` gives back the settings that `toJson` and JSON wrote: the parts that the network and
-- the security use as they were (a TLS certificate with the half that it uses, an HTTP header of
-- TCP only where its type is `http`), and the default for every other part, if JSON can write the
-- parts in use, where headers have text values and distinct, non-empty names, none of them
-- inherited, in an order that JavaScript keeps.
pub from_json-to_json :
    (random : Random) (s : StreamSettings)
    → IsJson s
    → (v : Value) × (to_json s ≡ ok v) × (from_json random (erase v) ≡ ok (kept random s))
unfolding from_json to_json
from_json-to_json random s h =
    let (tls, w_tls, r_tls) =
      part_back (is_tls s) (Tls.to_json s.tls) Tls.from_json (Tls.kept s.tls) Tls.new
        (λ e. Tls.from_json-to_json s.tls (h.tls e)) Tls.from_json-undefined in
    let (reality, w_reality, r_reality) =
      part_back (is_reality s) (Reality.to_json s.reality) (Reality.from_json random) s.reality
        (Reality.new random) (λ e. Reality.from_json-to_json random s.reality (h.reality e))
        (Reality.from_json-undefined random) in
    let (tcp, w_tcp, r_tcp) =
      part_back (equals_text s.network "tcp") (Tcp.to_json s.tcp) Tcp.from_json (Tcp.kept s.tcp)
        Tcp.new (λ e. Tcp.from_json-to_json s.tcp (h.tcp e)) Tcp.from_json-undefined in
    let (kcp, w_kcp, r_kcp) =
      part_back (equals_text s.network "kcp") (ok (Kcp.to_json s.kcp)) Kcp.from_json s.kcp Kcp.new
        (λ e. (Kcp.to_json s.kcp, refl, Kcp.from_json-to_json s.kcp (h.kcp e)))
        Kcp.from_json-undefined in
    let (ws, w_ws, r_ws) =
      part_back (equals_text s.network "ws") (Ws.to_json s.ws) Ws.from_json s.ws Ws.new
        (λ e. Ws.from_json-to_json s.ws (h.ws e)) Ws.from_json-undefined in
    let (grpc, w_grpc, r_grpc) =
      part_back (equals_text s.network "grpc") (ok (Grpc.to_json s.grpc)) Grpc.from_json s.grpc
        Grpc.new (λ e. (Grpc.to_json s.grpc, refl, Grpc.from_json-to_json s.grpc (h.grpc e)))
        Grpc.from_json-undefined in
    let (httpupgrade, w_httpupgrade, r_httpupgrade) =
      part_back (equals_text s.network "httpupgrade") (HttpUpgrade.to_json s.httpupgrade)
        HttpUpgrade.from_json s.httpupgrade HttpUpgrade.new
        (λ e. HttpUpgrade.from_json-to_json s.httpupgrade (h.httpupgrade e))
        HttpUpgrade.from_json-undefined in
    let (xhttp, w_xhttp, r_xhttp) =
      part_back (equals_text s.network "xhttp") (Xhttp.to_json s.xhttp) Xhttp.from_json s.xhttp
        Xhttp.new (λ e. Xhttp.from_json-to_json s.xhttp (h.xhttp e)) Xhttp.from_json-undefined in
    let (finalmask, w_finalmask, r_finalmask) =
      part_back (has_final_mask s) (ok (FinalMask.to_json s.finalmask)) FinalMask.from_json
        s.finalmask FinalMask.new
        (λ e. (
          FinalMask.to_json s.finalmask,
          refl,
          MaskTrip.from_json-to_json s.finalmask (h.finalmask e),
        ))
        MaskTrip.from_json-undefined in
    (
      object s tls reality tcp kcp ws grpc httpupgrade xhttp finalmask (sockopt_json s.sockopt),
      rw (w_tls, w_reality, w_tcp, w_kcp, w_ws, w_grpc, w_httpupgrade, w_xhttp, w_finalmask),
      rw (open_json-erase _ _ refl) (
          rw
            (
              r_tls,
              r_reality,
              r_tcp,
              r_kcp,
              r_ws,
              r_grpc,
              r_httpupgrade,
              r_xhttp,
              r_finalmask,
              sockopt_back s.sockopt h.sockopt,
            )
            (simp (default-erase, h.network, h.security, h.external_proxy))),
    )

-- Where there is nothing to read, the default settings are made.
pub from_json-undefined : (random : Random) → from_json random undefined ≡ ok (new random)
unfolding from_json
from_json-undefined random = rw (open_json-undefined _) (
    rw (
      Tls.from_json-undefined,
      Reality.from_json-undefined random,
      Tcp.from_json-undefined,
      Kcp.from_json-undefined,
      Ws.from_json-undefined,
      Grpc.from_json-undefined,
      HttpUpgrade.from_json-undefined,
      Xhttp.from_json-undefined,
      MaskTrip.from_json-undefined,
      Sockopt.from_json-undefined,
    ))
