-- ===== src/Outbound/Stream/Settings/RoundTrip.antt =====
-- `StreamSettings` (web/assets/js/model/outbound.js) through `toJson`, JSON and `fromJson`: each part is
-- taken through the contract of `Js.Part`.
use ax_ui.Common.{◌≡◌, refl, true, ok, Option, none, some, if◌then◌else◌, Holds, Holds-bind_any}
use ax_ui.Js.{Value, undefined, equals_text, equals_loose, truthy}
use ax_ui.Js.Json.{erase, is_json, default-erase}
use ax_ui.Js.Lookup.{open_json-erase, open_json-undefined, erase-undefined}
use ax_ui.Js.Part.{Part-back, when}
use ax_ui.Outbound.Stream.Settings.{
  StreamSettings, new, has_final_mask, from_json, to_json, object, sockopt_json,
}
use ax_ui.Outbound.Stream.Tls
use ax_ui.Outbound.Stream.Reality
use ax_ui.Outbound.Stream.Tcp
use ax_ui.Outbound.Stream.Kcp
use ax_ui.Outbound.Stream.Ws
use ax_ui.Outbound.Stream.Grpc
use ax_ui.Outbound.Stream.HttpUpgrade
use ax_ui.Outbound.Stream.Xhttp
use ax_ui.Outbound.Stream.Hysteria
use ax_ui.Outbound.Stream.FinalMask
use ax_ui.Outbound.Stream.Sockopt
use ax_ui.Outbound.Stream.FinalMask.RoundTrip as MaskTrip

-- The socket options, if there are any, hold values that JSON can write.
abbrev pub SockoptIsJson : Option Sockopt.Sockopt → Type 0
SockoptIsJson none = Unit
SockoptIsJson (some o) = Sockopt.IsJson o

-- JSON can write the settings: the two values, and each part that is in use.
pub record IsJson (s : StreamSettings) : Type 0 where
  pub network : is_json s.network ≡ true
  pub security : is_json s.security ≡ true
  pub tls : equals_loose s.security "tls" ≡ true → Tls.part.IsJson s.tls
  pub reality : equals_loose s.security "reality" ≡ true → Reality.part.IsJson s.reality
  pub tcp : equals_text s.network "tcp" ≡ true → Tcp.part.IsJson s.tcp
  pub kcp : equals_text s.network "kcp" ≡ true → Kcp.part.IsJson s.kcp
  pub ws : equals_text s.network "ws" ≡ true → Ws.part.IsJson s.ws
  pub grpc : equals_text s.network "grpc" ≡ true → Grpc.part.IsJson s.grpc
  pub httpupgrade :
      equals_text s.network "httpupgrade" ≡ true → HttpUpgrade.part.IsJson s.httpupgrade
  pub xhttp : equals_text s.network "xhttp" ≡ true → Xhttp.part.IsJson s.xhttp
  pub hysteria : equals_text s.network "hysteria" ≡ true → Hysteria.part.IsJson s.hysteria
  pub finalmask : has_final_mask s ≡ true → MaskTrip.part.IsJson s.finalmask
  pub sockopt : SockoptIsJson s.sockopt

-- What is kept of the settings: what each part in use keeps, and the default for every other one.
abbrev pub kept : StreamSettings → StreamSettings
kept s = record s {
  tls = if equals_loose s.security "tls" then Tls.part.kept s.tls else Tls.new;
  reality = if equals_loose s.security "reality" then Reality.part.kept s.reality else Reality.new;
  tcp = if equals_text s.network "tcp" then Tcp.part.kept s.tcp else Tcp.new;
  kcp = if equals_text s.network "kcp" then Kcp.part.kept s.kcp else Kcp.new;
  ws = if equals_text s.network "ws" then Ws.part.kept s.ws else Ws.new;
  grpc = if equals_text s.network "grpc" then Grpc.part.kept s.grpc else Grpc.new;
  httpupgrade =
      if equals_text s.network "httpupgrade"
      then HttpUpgrade.part.kept s.httpupgrade
      else HttpUpgrade.new;
  xhttp = if equals_text s.network "xhttp" then Xhttp.part.kept s.xhttp else Xhttp.new;
  hysteria =
      if equals_text s.network "hysteria" then Hysteria.part.kept s.hysteria else Hysteria.new;
  finalmask = if has_final_mask s then MaskTrip.part.kept s.finalmask else FinalMask.new;
}

sockopt_back :
    (o : Option Sockopt.Sockopt)
    → SockoptIsJson o
    → Sockopt.from_json (erase (sockopt_json o)) ≡ ok o
sockopt_back none h = rw erase-undefined Sockopt.from_json-undefined
sockopt_back (some o) h = Sockopt.from_json-to_json o h

-- `fromJson` gives back the transport settings of an outbound that `toJson` and JSON wrote: what each part
-- in use keeps, and the default for every other part, if JSON can write the parts in use.
pub from_json-to_json_outbound_stream :
    (s : StreamSettings)
    → IsJson s
    → (v : Value) × (to_json s ≡ ok v) × (from_json (erase v) ≡ ok (kept s))
unfolding from_json to_json
from_json-to_json_outbound_stream s h =
    let (tls, w_tls, r_tls) = Part-back Tls.part (equals_loose s.security "tls") s.tls h.tls in
    let (reality, w_reality, r_reality) =
      Part-back Reality.part (equals_loose s.security "reality") s.reality h.reality in
    let (tcp, w_tcp, r_tcp) = Part-back Tcp.part (equals_text s.network "tcp") s.tcp h.tcp in
    let (kcp, w_kcp, r_kcp) = Part-back Kcp.part (equals_text s.network "kcp") s.kcp h.kcp in
    let (ws, w_ws, r_ws) = Part-back Ws.part (equals_text s.network "ws") s.ws h.ws in
    let (grpc, w_grpc, r_grpc) = Part-back Grpc.part (equals_text s.network "grpc") s.grpc h.grpc in
    let (httpupgrade, w_httpupgrade, r_httpupgrade) =
      Part-back HttpUpgrade.part (equals_text s.network "httpupgrade") s.httpupgrade
        h.httpupgrade in
    let (xhttp, w_xhttp, r_xhttp) =
      Part-back Xhttp.part (equals_text s.network "xhttp") s.xhttp h.xhttp in
    let (hysteria, w_hysteria, r_hysteria) =
      Part-back Hysteria.part (equals_text s.network "hysteria") s.hysteria h.hysteria in
    let (finalmask, w_finalmask, r_finalmask) =
      Part-back MaskTrip.part (has_final_mask s) s.finalmask h.finalmask in
    (
      object s tls reality tcp kcp ws grpc httpupgrade xhttp hysteria finalmask
          (sockopt_json s.sockopt),
      rw (
        w_tls, w_reality, w_tcp, w_kcp, w_ws, w_grpc, w_httpupgrade, w_xhttp, w_hysteria,
        w_finalmask,
      ),
      rw (open_json-erase _ _ refl) (
          rw
            (
              r_tls,
              r_reality,
              r_tcp,
              r_kcp,
              r_ws,
              r_grpc,
              r_httpupgrade,
              r_xhttp,
              r_hysteria,
              r_finalmask,
              sockopt_back s.sockopt h.sockopt,
            )
            (simp (default-erase, h.network, h.security))),
    )

-- With no value at all `fromJson` gives the default settings.
pub from_json-undefined : from_json undefined ≡ ok new
unfolding from_json
from_json-undefined = rw (open_json-undefined _) (
    rw (
      Tls.from_json-undefined, Reality.from_json-undefined, Tcp.from_json-undefined,
      Kcp.from_json-undefined, Ws.from_json-undefined, Grpc.from_json-undefined,
      HttpUpgrade.from_json-undefined, Xhttp.from_json-undefined, Hysteria.from_json-undefined,
      MaskTrip.from_json-undefined, Sockopt.from_json-undefined,
    ))

-- What is written is an object.
pub to_json-truthy : (s : StreamSettings) → Holds (λ v. truthy v ≡ true) (to_json s)
unfolding to_json
to_json-truthy s =
    Holds-bind_any _ (when (equals_loose s.security "tls") (ok (Tls.to_json s.tls))) _ (λ tls.
      Holds-bind_any _ (when (equals_loose s.security "reality") (ok (Reality.to_json s.reality))) _
        (λ reality.
          Holds-bind_any _ (when (equals_text s.network "tcp") (Tcp.to_json s.tcp)) _ (λ tcp.
            Holds-bind_any _ (when (equals_text s.network "kcp") (ok (Kcp.to_json s.kcp))) _ (λ kcp.
              Holds-bind_any _ (when (equals_text s.network "ws") (ok (Ws.to_json s.ws))) _ (λ ws.
                Holds-bind_any _ (when (equals_text s.network "grpc") (ok (Grpc.to_json s.grpc))) _
                  (λ grpc.
                    Holds-bind_any _
                      (when (equals_text s.network "httpupgrade")
                        (ok (HttpUpgrade.to_json s.httpupgrade)))
                      _
                      (λ httpupgrade.
                        Holds-bind_any _
                          (when (equals_text s.network "xhttp") (Xhttp.to_json s.xhttp)) _
                          (λ xhttp.
                            Holds-bind_any _
                              (when (equals_text s.network "hysteria")
                                (ok (Hysteria.to_json s.hysteria)))
                              _
                              (λ hysteria.
                                Holds-bind_any _
                                  (when (has_final_mask s) (ok (FinalMask.to_json s.finalmask))) _
                                  (λ finalmask. refl))))))))))
