-- ===== src/Outbound/Protocol.antt =====
-- `Outbound.Settings.getSettings` and `fromJson`, which choose the class of the settings by the protocol
-- (web/assets/js/model/outbound.js), and `toJson` of what they give.
pub mod RoundTrip
use ax_ui.Common.{List, [], ◌∷◌, Result, ok, ◌>>=◌, Option, none, some, if◌then◌else◌, String, ◌==◌}
use ax_ui.Js.{Value, undefined, str}
use ax_ui.Outbound.Settings.Freedom
use ax_ui.Outbound.Settings.Blackhole
use ax_ui.Outbound.Settings.Dns
use ax_ui.Outbound.Settings.Vmess
use ax_ui.Outbound.Settings.Vless
use ax_ui.Outbound.Settings.Trojan
use ax_ui.Outbound.Settings.Shadowsocks
use ax_ui.Outbound.Settings.Socks
use ax_ui.Outbound.Settings.Http
use ax_ui.Outbound.Settings.Wireguard
use ax_ui.Outbound.Settings.Hysteria
use ax_ui.Outbound.Settings.Peer

-- `Protocols`
pub data Protocol : Type 0 where
  freedom blackhole dns vmess vless trojan shadowsocks socks http wireguard hysteria : Protocol

pub data Settings : Type 0 where
  of_freedom : Freedom.FreedomSettings → Settings
  of_blackhole : Blackhole.BlackholeSettings → Settings
  of_dns : Dns.DnsSettings → Settings
  of_vmess : Vmess.VmessSettings → Settings
  of_vless : Vless.VlessSettings → Settings
  of_trojan : Trojan.TrojanSettings → Settings
  of_shadowsocks : Shadowsocks.ShadowsocksSettings → Settings
  of_socks : Socks.SocksSettings → Settings
  of_http : Http.HttpSettings → Settings
  of_wireguard : Wireguard.WireguardSettings → Settings
  of_hysteria : Hysteria.HysteriaSettings → Settings

abbrev pub name_of : Protocol → String
name_of freedom = "freedom"
name_of blackhole = "blackhole"
name_of dns = "dns"
name_of vmess = "vmess"
name_of vless = "vless"
name_of trojan = "trojan"
name_of shadowsocks = "shadowsocks"
name_of socks = "socks"
name_of http = "http"
name_of wireguard = "wireguard"
name_of hysteria = "hysteria"

-- The `case` that a value selects.
abbrev pub protocol_of : Value → Option Protocol
protocol_of (str s) =
    if s == "freedom"
    then some freedom
    else if s == "blackhole"
    then some blackhole
    else if s == "dns"
    then some dns
    else if s == "vmess"
    then some vmess
    else if s == "vless"
    then some vless
    else if s == "trojan"
    then some trojan
    else if s == "shadowsocks"
    then some shadowsocks
    else if s == "socks"
    then some socks
    else if s == "http"
    then some http
    else if s == "wireguard"
    then some wireguard
    else if s == "hysteria"
    then some hysteria
    else none
protocol_of v = none

abbrev pub class_of : Settings → Protocol
class_of (of_freedom s) = freedom
class_of (of_blackhole s) = blackhole
class_of (of_dns s) = dns
class_of (of_vmess s) = vmess
class_of (of_vless s) = vless
class_of (of_trojan s) = trojan
class_of (of_shadowsocks s) = shadowsocks
class_of (of_socks s) = socks
class_of (of_http s) = http
class_of (of_wireguard s) = wireguard
class_of (of_hysteria s) = hysteria

-- `getSettings`: the settings that the constructor of a class makes with no argument.
abbrev pub new_settings : Wireguard.Calls → Protocol → Result Settings
new_settings calls freedom = ok (of_freedom Freedom.new)
new_settings calls blackhole = ok (of_blackhole Blackhole.new)
new_settings calls dns = ok (of_dns Dns.new)
new_settings calls vmess = ok (of_vmess Vmess.new)
new_settings calls vless = ok (of_vless Vless.new)
new_settings calls trojan = ok (of_trojan Trojan.new)
new_settings calls shadowsocks = ok (of_shadowsocks Shadowsocks.new)
new_settings calls socks = ok (of_socks Socks.new)
new_settings calls http = ok (of_http Http.new)
new_settings calls wireguard = do
  s ←
      Wireguard.create calls undefined undefined undefined undefined undefined undefined
        (Peer.new ∷ []) undefined
  ok (of_wireguard s)
new_settings calls hysteria = ok (of_hysteria Hysteria.new)

abbrev pub new_known : Wireguard.Calls → Option Protocol → Result (Option Settings)
new_known calls none = ok none
new_known calls (some p) = do s ← new_settings calls p; ok (some s)

unfoldable pub get_settings : Wireguard.Calls → Value → Result (Option Settings)
get_settings calls protocol = new_known calls (protocol_of protocol)

abbrev any_vmess : Option Vmess.VmessSettings → Option Settings
any_vmess none = none
any_vmess (some s) = some (of_vmess s)

-- `fromJson`, by the class. `none` is also what a VMess list without servers gives.
abbrev pub read : Wireguard.Calls → Value → Protocol → Result (Option Settings)
read calls json freedom = do s ← Freedom.from_json json; ok (some (of_freedom s))
read calls json blackhole = do s ← Blackhole.from_json json; ok (some (of_blackhole s))
read calls json dns = do s ← Dns.from_json json; ok (some (of_dns s))
read calls json vmess = do s ← Vmess.from_json json; ok (any_vmess s)
read calls json vless = do s ← Vless.from_json json; ok (some (of_vless s))
read calls json trojan = do s ← Trojan.from_json json; ok (some (of_trojan s))
read calls json shadowsocks = do s ← Shadowsocks.from_json json; ok (some (of_shadowsocks s))
read calls json socks = do s ← Socks.from_json json; ok (some (of_socks s))
read calls json http = do s ← Http.from_json json; ok (some (of_http s))
read calls json wireguard = do s ← Wireguard.from_json calls json; ok (some (of_wireguard s))
read calls json hysteria = do s ← Hysteria.from_json json; ok (some (of_hysteria s))

abbrev pub read_known : Wireguard.Calls → Value → Option Protocol → Result (Option Settings)
read_known calls json none = ok none
read_known calls json (some p) = read calls json p

unfoldable pub from_json : Wireguard.Calls → Value → Value → Result (Option Settings)
from_json calls protocol json = read_known calls json (protocol_of protocol)

unfoldable pub to_json : Wireguard.Calls → Settings → Result Value
to_json calls (of_freedom s) = ok (Freedom.to_json s)
to_json calls (of_blackhole s) = ok (Blackhole.to_json s)
to_json calls (of_dns s) = ok (Dns.to_json s)
to_json calls (of_vmess s) = ok (Vmess.to_json s)
to_json calls (of_vless s) = ok (Vless.to_json calls.number s)
to_json calls (of_trojan s) = ok (Trojan.to_json s)
to_json calls (of_shadowsocks s) = ok (Shadowsocks.to_json s)
to_json calls (of_socks s) = ok (Socks.to_json s)
to_json calls (of_http s) = ok (Http.to_json s)
to_json calls (of_wireguard s) = Wireguard.to_json calls s
to_json calls (of_hysteria s) = ok (Hysteria.to_json s)
