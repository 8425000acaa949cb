-- ===== src/Inbound/Model.antt =====
-- `Inbound` (web/assets/js/model/inbound.js): the constructor, `fromJson`, `toJson`, the setter of the
-- protocol, `reset`, and the tests of what an inbound can enable.
pub mod RoundTrip
pub mod Sync
pub mod Abilities
pub mod Reset
use ax_ui.Common.{
  Bool, true, false, ◌&&◌, ◌||◌, List, [], ◌∷◌, String, any, Result, ok, ◌>>=◌, Option, none, some,
  if◌then◌else◌,
}
use ax_ui.Js.{Value, undefined, null, str, obj, entries, default, equals_text}
use ax_ui.Js.Part.{when}
use ax_ui.Js.Lookup.{open_json}
use ax_ui.Inbound.Protocol
use ax_ui.Inbound.Protocol.{of_vless}
use ax_ui.Inbound.Sniffing
use ax_ui.Inbound.Clients.Vless.{Vless}
use ax_ui.Stream.Reality
use ax_ui.Stream.Settings as Stream

pub record Inbound : Type 0 where
  pub port : Value
  pub listen : Value
  pub protocol : Value
  pub settings : Option Protocol.Settings
  pub stream : Stream.StreamSettings
  pub tag : Value
  pub sniffing : Sniffing.Sniffing
  pub client_stats : Value

-- The random choices of an inbound.
pub record Random : Type 0 where
  pub port : Value
  pub settings : Protocol.Random
  pub stream : Reality.Random

-- `ObjectUtil.isEmpty(settings) ? getSettings(protocol) : settings`
abbrev pub settings_or_new :
    Protocol.Random → Value → Option Protocol.Settings → Result (Option Protocol.Settings)
settings_or_new random protocol none = Protocol.get_settings random protocol
settings_or_new random protocol (some s) = ok (some s)

unfoldable pub from_json : Random → Value → Result Inbound
from_json random json = do
  at ← open_json json
  settings ← Protocol.from_json random.settings (at "protocol") (at "settings")
  stream ← Stream.from_json random.stream (at "streamSettings")
  sniffing ← Sniffing.from_json (at "sniffing")
  own ← settings_or_new random.settings (default (str "vless") (at "protocol")) settings
  ok (record {
    port = default random.port (at "port");
    listen = default (str "") (at "listen");
    protocol = default (str "vless") (at "protocol");
    settings = own;
    stream = stream;
    tag = default (str "") (at "tag");
    sniffing = sniffing;
    client_stats = default (str "") (at "clientStats");
  })

-- `names.includes(value)`
abbrev among : List String → Value → Bool
among names v = any (equals_text v) names

abbrev pub can_enable_stream : Inbound → Bool
can_enable_stream i = among ("vmess" ∷ "vless" ∷ "trojan" ∷ "shadowsocks" ∷ []) i.protocol

abbrev pub can_enable_tls : Inbound → Bool
can_enable_tls i =
    among ("vmess" ∷ "vless" ∷ "trojan" ∷ "shadowsocks" ∷ []) i.protocol
    && among ("tcp" ∷ "ws" ∷ "http" ∷ "grpc" ∷ "httpupgrade" ∷ "xhttp" ∷ []) i.stream.network

abbrev pub can_enable_tls_flow : Inbound → Bool
can_enable_tls_flow i =
    if (equals_text i.stream.security "tls" || equals_text i.stream.security "reality")
      && equals_text i.stream.network "tcp"
    then equals_text i.protocol "vless"
    else false

abbrev pub can_enable_reality : Inbound → Bool
can_enable_reality i =
    among ("vless" ∷ "trojan" ∷ []) i.protocol
    && among ("tcp" ∷ "http" ∷ "grpc" ∷ "xhttp" ∷ []) i.stream.network

-- `this.settings?.vlesses`, or no client where that is no array.
abbrev pub vlesses_of : Option Protocol.Settings → List Vless
vlesses_of (some (of_vless s)) = s.vlesses
vlesses_of _ = []

abbrev pub has_vision : Vless → Bool
has_vision c = equals_text c.flow "xtls-rprx-vision" || equals_text c.flow "xtls-rprx-vision-udp443"

abbrev pub can_enable_vision_seed : Inbound → Bool
can_enable_vision_seed i = can_enable_tls_flow i && any has_vision (vlesses_of i.settings)

abbrev pub is_some {ℓ} : {A : Type ℓ} → Option A → Bool
is_some none = false
is_some (some x) = true

-- The settings of an unknown protocol are `null`.
abbrev pub settings_json : Option Protocol.Settings → Result Value
settings_json none = ok null
settings_json (some s) = Protocol.to_json s

abbrev pub object : Inbound → (settings stream : Value) → Value
object i settings stream = obj (
    entries (
      ("port", i.port)
      ∷ ("listen", i.listen)
      ∷ ("protocol", i.protocol)
      ∷ ("settings", settings)
      ∷ ("streamSettings", stream)
      ∷ ("tag", i.tag)
      ∷ ("sniffing", Sniffing.to_json i.sniffing)
      ∷ ("clientStats", i.client_stats)
      ∷ []))

abbrev pub writes_stream : Inbound → Bool
writes_stream i = can_enable_stream i || is_some i.stream.sockopt

unfoldable pub to_json : Inbound → Result Value
to_json i = do
  stream ← when (writes_stream i) (Stream.to_json i.stream)
  settings ← settings_json i.settings
  ok (object i settings stream)

-- The setter of `protocol`. (What it sets for Trojan, `tls`, nothing reads.)
unfoldable pub set_protocol : Protocol.Random → Value → Inbound → Result Inbound
set_protocol random protocol i = do
  settings ← Protocol.get_settings random protocol
  ok (record i { protocol = protocol; settings = settings })

-- `reset`, which leaves the statistics.
unfoldable pub reset : Random → Inbound → Result Inbound
reset random i = do
  settings ← Protocol.get_settings random.settings (str "vmess")
  ok (record i {
    port = random.port;
    listen = str "";
    protocol = str "vmess";
    settings = settings;
    stream = Stream.new random.stream;
    tag = str "";
    sniffing = Sniffing.new;
  })
