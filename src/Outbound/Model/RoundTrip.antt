-- ===== src/Outbound/Model/RoundTrip.antt =====
-- `Outbound` through `toJson`, JSON and `fromJson` (web/assets/js/model/outbound.js).
use ax_ui.Common.{
  ◌≡◌, refl, true, false, Bool, String, Option, some, none, ok, if◌then◌else◌, Holds-elim,
  Bool-cases, inl, inr,
}
use ax_ui.Js.{Value, undefined, str, obj, truthy, or_value}
use ax_ui.Js.Json.{erase, is_json, is_optional, default-is_json, erase-is_json}
use ax_ui.Js.Lookup.{open_json-erase, erase-undefined, default-truthy, optional-truthy}
use ax_ui.Js.Given.{given, property-given, distinct_keys-given}
use ax_ui.Outbound.Settings.Wireguard.{Calls}
use ax_ui.Outbound.Protocol
use ax_ui.Outbound.Protocol.RoundTrip as ProtocolTrip
use ax_ui.Outbound.Mux
use ax_ui.Outbound.Model.{
  Outbound, create, from_json, to_json, fields, can_enable_stream, stream_json, sockopt_only,
  mux_or_new,
}
use ax_ui.Outbound.Stream.Sockopt
use ax_ui.Outbound.Stream.Settings as Stream
use ax_ui.Outbound.Stream.Settings.RoundTrip as StreamTrip
use ax_ui.Outbound.Stream.Tls
use ax_ui.Outbound.Stream.Reality
use ax_ui.Outbound.Stream.Tcp
use ax_ui.Outbound.Stream.Kcp
use ax_ui.Outbound.Stream.Ws
use ax_ui.Outbound.Stream.Grpc
use ax_ui.Outbound.Stream.HttpUpgrade
use ax_ui.Outbound.Stream.Xhttp
use ax_ui.Outbound.Stream.Hysteria
use ax_ui.Outbound.Stream.FinalMask.RoundTrip as MaskTrip

-- JSON can write the outbound; its settings `s` are of the class that its protocol selects.
pub record IsJson (calls : Calls) (s : Protocol.Settings) (o : Outbound) : Type 0 where
  pub tag : is_json o.tag ≡ true
  pub protocol : o.protocol ≡ str (Protocol.name_of (Protocol.class_of s))
  pub settings : o.settings ≡ some s
  pub settings_json : ProtocolTrip.IsJson calls s
  pub stream : can_enable_stream o ≡ true → StreamTrip.IsJson o.stream
  pub sockopt : StreamTrip.SockoptIsJson o.stream.sockopt
  pub send_through : is_optional o.send_through ≡ true
  pub mux : truthy o.mux.enabled ≡ true → Mux.IsJson o.mux

-- Where the protocol has no transport settings, the socket options are all that is kept of them.
abbrev pub kept_stream : Outbound → Stream.StreamSettings
kept_stream o =
    if can_enable_stream o
    then StreamTrip.kept o.stream
    else record Stream.new { sockopt = o.stream.sockopt }

-- What is kept of the outbound: what its class keeps of the settings, the transport settings, an empty
-- tag for a falsy one, and the multiplexing where it is enabled.
abbrev pub kept : Calls → Protocol.Settings → Outbound → Outbound
kept calls s o = record o {
  tag = or_value o.tag (str "");
  settings = some (ProtocolTrip.kept calls s);
  stream = kept_stream o;
  send_through = or_value o.send_through undefined;
  mux = if truthy o.mux.enabled then o.mux else Mux.new;
}

sockopt_only_back :
    (k : Option Sockopt.Sockopt)
    → StreamTrip.SockoptIsJson k
    → Stream.from_json (erase (if truthy (sockopt_only k) then sockopt_only k else undefined))
      ≡ ok (record Stream.new { sockopt = k })
unfolding Stream.from_json
sockopt_only_back none h = rw erase-undefined StreamTrip.from_json-undefined
sockopt_only_back (some k) h = rw (open_json-erase _ _ refl) (
    rw erase-undefined (
      rw (
        Tls.from_json-undefined,
        Reality.from_json-undefined,
        Tcp.from_json-undefined,
        Kcp.from_json-undefined,
        Ws.from_json-undefined,
        Grpc.from_json-undefined,
        HttpUpgrade.from_json-undefined,
        Xhttp.from_json-undefined,
        Hysteria.from_json-undefined,
        MaskTrip.from_json-undefined,
        Sockopt.from_json-to_json k h,
      )))

stream_back :
    (o : Outbound)
    → (can_enable_stream o ≡ true → StreamTrip.IsJson o.stream)
    → StreamTrip.SockoptIsJson o.stream.sockopt
    → (v : Value) × (stream_json o ≡ ok v)
      × (Stream.from_json (erase (if truthy v then v else undefined)) ≡ ok (kept_stream o))
stream_back o h k = elim (Bool-cases (can_enable_stream o)) [
  | inl y ↦
      let (v, w, r) = StreamTrip.from_json-to_json_outbound_stream o.stream (h y) in
      (v, rw y w, rw y (rw (Holds-elim _ _ w (StreamTrip.to_json-truthy o.stream)) r))
  | inr n ↦ (sockopt_only o.stream.sockopt, rw n refl, rw n (sockopt_only_back o.stream.sockopt k))
]

mux_back :
    (m : Mux.Mux)
    → (truthy m.enabled ≡ true → Mux.IsJson m)
    → Mux.from_json (erase (if truthy m.enabled then Mux.to_json m else undefined))
      ≡ ok (if truthy m.enabled then some m else none)
mux_back m h = elim (Bool-cases (truthy m.enabled)) [
  | inl y ↦ rw y (Mux.from_json-to_json m (h y))
  | inr n ↦ rw n (rw erase-undefined Mux.from_json-undefined)
]

mux_kept :
    (b : Bool) (m : Mux.Mux) → mux_or_new (if b then some m else none) ≡ (if b then m else Mux.new)
mux_kept true m = refl
mux_kept false m = refl

settings_back :
    (calls : Calls) (s : Protocol.Settings) (o : Outbound) (v : Value)
    → IsJson calls s o
    → Protocol.read calls (erase v) (Protocol.class_of s) ≡ ok (some (ProtocolTrip.kept calls s))
    → Protocol.from_json calls (erase o.protocol) (erase v) ≡ ok (some (ProtocolTrip.kept calls s))
unfolding Protocol.from_json erase
settings_back calls s o v h e =
    rw h.protocol (rw (ProtocolTrip.protocol_of-name_of (Protocol.class_of s)) e)

protocol_is_json :
    (calls : Calls) (s : Protocol.Settings) (o : Outbound)
    → IsJson calls s o
    → is_json o.protocol ≡ true
unfolding is_json
protocol_is_json calls s o h = rw h.protocol refl

-- An outbound comes back from JSON with the same protocol and what its class keeps of the settings; with
-- its transport settings where the protocol has any, and else with the socket options alone; with its tag
-- and its sending address where they are truthy; and with its multiplexing where that is enabled, if its
-- settings are of the class that the protocol selects and JSON can write the parts in use, as the
-- conditions of those parts say.
pub from_json-to_json_outbound :
    (calls : Calls) (s : Protocol.Settings) (o : Outbound)
    → IsJson calls s o
    → (v : Value) × (to_json calls o ≡ ok v) × (from_json calls (erase v) ≡ ok (kept calls s o))
unfolding from_json to_json create
from_json-to_json_outbound calls s o h =
    let (settings, w, r) =
      ProtocolTrip.from_json-to_json_outbound_settings calls s h.settings_json in
    let (stream, w', r') = stream_back o h.stream h.sockopt in
    let at = λ (k : String). property-given k (fields o settings stream) refl in
    (
      obj (given (fields o settings stream)),
      rw w' (rw h.settings (rw w refl)),
      rw (open_json-erase _ _ (distinct_keys-given (fields o settings stream) refl)) (
          rw
            (
              at "protocol",
              at "settings",
              at "tag",
              at "streamSettings",
              at "sendThrough",
              at "mux",
            )
            (rw (settings_back calls s o settings h r) (
              rw (r', mux_back o.mux h.mux)
                (rw
                  (
                    mux_kept (truthy o.mux.enabled) o.mux,
                    default-truthy (str "") o.tag h.tag,
                    optional-truthy o.send_through h.send_through,
                  )
                  (rw (erase-is_json o.protocol (protocol_is_json calls s o h)) (
                    rw (
                      default-is_json (str "vless") o.protocol
                        (protocol_is_json calls s o h)))))))),
    )
