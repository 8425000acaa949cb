-- ===== src/Outbound/Model.antt =====
-- `Outbound` (web/assets/js/model/outbound.js): the constructor, `fromJson`, `toJson`, the setter of the
-- protocol, and the tests of what an outbound can enable.
pub mod RoundTrip
pub mod Abilities
use ax_ui.Common.{
  Bool, true, false, not, ◌&&◌, ◌||◌, List, [], ◌∷◌, String, any, Result, ok, type_error, ◌>>=◌,
  Option, none, some, if◌then◌else◌,
}
use ax_ui.Js.{Value, undefined, null, bool, str, obj, entries, default, equals_text, truthy}
use ax_ui.Js.Lookup.{open_json}
use ax_ui.Js.Given.{given}
use ax_ui.Outbound.Settings.Wireguard.{Calls}
use ax_ui.Outbound.Protocol
use ax_ui.Outbound.Protocol.{of_vless}
use ax_ui.Outbound.Mux
use ax_ui.Outbound.Stream.Sockopt
use ax_ui.Outbound.Stream.Settings as Stream

pub record Outbound : Type 0 where
  pub tag : Value
  pub protocol : Value
  pub settings : Option Protocol.Settings
  pub stream : Stream.StreamSettings
  pub send_through : Value
  pub mux : Mux.Mux

-- `settings == null ? getSettings(protocol) : settings`
abbrev pub settings_or_new :
    Calls → Value → Option Protocol.Settings → Result (Option Protocol.Settings)
settings_or_new calls protocol none = Protocol.get_settings calls protocol
settings_or_new calls protocol (some s) = ok (some s)

abbrev pub mux_or_new : Option Mux.Mux → Mux.Mux
mux_or_new none = Mux.new
mux_or_new (some m) = m

-- The constructor, with settings or without.
unfoldable pub create :
    Calls
    → (tag protocol : Value) → Option Protocol.Settings
    → Stream.StreamSettings
    → Value
    → Option Mux.Mux
    → Result Outbound
create calls tag protocol settings stream send_through mux = do
  own ← settings_or_new calls (default (str "vless") protocol) settings
  ok (record {
    tag = default (str "") tag;
    protocol = default (str "vless") protocol;
    settings = own;
    stream = stream;
    send_through = send_through;
    mux = mux_or_new mux;
  })

unfoldable pub from_json : Calls → Value → Result Outbound
from_json calls json = do
  at ← open_json json
  settings ← Protocol.from_json calls (at "protocol") (at "settings")
  stream ← Stream.from_json (at "streamSettings")
  mux ← Mux.from_json (at "mux")
  create calls (at "tag") (at "protocol") settings stream (at "sendThrough") mux

-- The setter of `protocol`.
unfoldable pub set_protocol : Calls → Value → Outbound → Result Outbound
set_protocol calls protocol o = do
  settings ← Protocol.get_settings calls protocol
  ok (record o { protocol = protocol; settings = settings; stream = Stream.new })

-- `names.includes(value)`
abbrev pub among : List String → Value → Bool
among names v = any (equals_text v) names

abbrev pub can_enable_stream : Outbound → Bool
can_enable_stream o =
    among ("vmess" ∷ "vless" ∷ "trojan" ∷ "shadowsocks" ∷ "hysteria" ∷ []) o.protocol

abbrev pub can_enable_tls : Outbound → Bool
can_enable_tls o =
    can_enable_stream o
    && (if equals_text o.protocol "hysteria"
        then equals_text o.stream.network "hysteria"
        else among ("tcp" ∷ "ws" ∷ "http" ∷ "grpc" ∷ "httpupgrade" ∷ "xhttp" ∷ []) o.stream.network)

abbrev pub can_enable_reality : Outbound → Bool
can_enable_reality o =
    among ("vless" ∷ "trojan" ∷ []) o.protocol
    && among ("tcp" ∷ "http" ∷ "grpc" ∷ "xhttp" ∷ []) o.stream.network

-- `settings.flow`: only the settings of VLESS have one, and `null` has no property.
abbrev pub flow_of : Option Protocol.Settings → Result Value
flow_of none = type_error
flow_of (some (of_vless s)) = ok s.flow
flow_of (some s) = ok undefined

abbrev pub disabled : Outbound → Outbound
disabled o = record o { mux = record o.mux { enabled = bool false } }

abbrev pub mux_protocols : List String
mux_protocols = "vmess" ∷ "vless" ∷ "trojan" ∷ "shadowsocks" ∷ "http" ∷ "socks" ∷ []

-- `canEnableMux` switches the multiplexing off where a flow or XHTTP rules it out.
unfoldable pub can_enable_mux : Outbound → Result (Outbound × Bool)
can_enable_mux o = do
  flow ← flow_of o.settings
  ok (
      if (truthy flow && not (equals_text flow "")) || equals_text o.stream.network "xhttp"
      then (disabled o, false)
      else (o, among mux_protocols o.protocol))

-- The settings of an unknown protocol are `null`.
abbrev pub settings_json : Calls → Option Protocol.Settings → Result Value
settings_json calls none = ok null
settings_json calls (some s) = Protocol.to_json calls s

-- Without transport settings only the socket options are written.
abbrev pub sockopt_only : Option Sockopt.Sockopt → Value
sockopt_only none = undefined
sockopt_only (some k) = obj (entries (("sockopt", Sockopt.to_json k) ∷ []))

abbrev pub stream_json : Outbound → Result Value
stream_json o =
    if can_enable_stream o then Stream.to_json o.stream else ok (sockopt_only o.stream.sockopt)

-- The properties, with the condition under which `toJson` has each.
abbrev pub fields : Outbound → (settings stream : Value) → List (Bool × String × Value)
fields o settings stream =
    (true, "protocol", o.protocol)
    ∷ (true, "settings", settings)
    ∷ (truthy o.tag, "tag", o.tag)
    ∷ (truthy stream, "streamSettings", stream)
    ∷ (truthy o.send_through, "sendThrough", o.send_through)
    ∷ (truthy o.mux.enabled, "mux", Mux.to_json o.mux)
    ∷ []

unfoldable pub to_json : Calls → Outbound → Result Value
to_json calls o = do
  stream ← stream_json o
  settings ← settings_json calls o.settings
  ok (obj (given (fields o settings stream)))
