-- ===== src/Outbound/Protocol/RoundTrip.antt =====
-- The settings of an outbound through `toJson`, JSON and `fromJson` (web/assets/js/model/outbound.js).
use ax_ui.Common.{◌≡◌, refl, ok, some}
use ax_ui.Js.{Value, str}
use ax_ui.Js.Json.{erase}
use ax_ui.Outbound.Protocol.{
  Settings, class_of, name_of, read, to_json, protocol_of, Protocol, of_freedom, freedom,
  of_blackhole, blackhole, of_dns, dns, of_vmess, vmess, of_vless, vless, of_trojan, trojan,
  of_shadowsocks, shadowsocks, of_socks, socks, of_http, http, of_wireguard, wireguard, of_hysteria,
  hysteria,
}
use ax_ui.Outbound.Settings.Freedom
use ax_ui.Outbound.Settings.Blackhole
use ax_ui.Outbound.Settings.Dns
use ax_ui.Outbound.Settings.Vmess
use ax_ui.Outbound.Settings.Vless
use ax_ui.Outbound.Settings.Trojan
use ax_ui.Outbound.Settings.Shadowsocks
use ax_ui.Outbound.Settings.Socks
use ax_ui.Outbound.Settings.Http
use ax_ui.Outbound.Settings.Wireguard
use ax_ui.Outbound.Settings.Hysteria
use ax_ui.Outbound.Settings.Wireguard.RoundTrip as WireguardTrip

-- JSON can write the settings, as the class of each says.
abbrev pub IsJson : Wireguard.Calls → Settings → Type 0
IsJson calls (of_freedom s) = Freedom.IsJson s
IsJson calls (of_blackhole s) = Blackhole.IsJson s
IsJson calls (of_dns s) = Dns.IsJson s
IsJson calls (of_vmess s) = Vmess.IsJson s
IsJson calls (of_vless s) = Vless.IsJson s
IsJson calls (of_trojan s) = Trojan.IsJson s
IsJson calls (of_shadowsocks s) = Shadowsocks.IsJson s
IsJson calls (of_socks s) = Socks.IsJson s
IsJson calls (of_http s) = Http.IsJson s
IsJson calls (of_wireguard s) = WireguardTrip.IsJson calls s
IsJson calls (of_hysteria s) = Hysteria.IsJson s

-- What is kept of the settings.
abbrev pub kept : Wireguard.Calls → Settings → Settings
kept calls (of_freedom s) = of_freedom (Freedom.kept s)
kept calls (of_blackhole s) = of_blackhole (Blackhole.kept s)
kept calls (of_dns s) = of_dns (s)
kept calls (of_vmess s) = of_vmess (s)
kept calls (of_vless s) = of_vless (Vless.kept calls.number s)
kept calls (of_trojan s) = of_trojan (s)
kept calls (of_shadowsocks s) = of_shadowsocks (s)
kept calls (of_socks s) = of_socks (Socks.kept s)
kept calls (of_http s) = of_http (Http.kept s)
kept calls (of_wireguard s) = of_wireguard (WireguardTrip.kept s)
kept calls (of_hysteria s) = of_hysteria (s)

-- The settings of each protocol come back from JSON as their class keeps them, if JSON can write them.
pub from_json-to_json_outbound_settings :
    (calls : Wireguard.Calls) (s : Settings)
    → IsJson calls s
    → (v : Value) × (to_json calls s ≡ ok v)
      × (read calls (erase v) (class_of s) ≡ ok (some (kept calls s)))
unfolding to_json
from_json-to_json_outbound_settings calls (of_freedom s) h =
    (Freedom.to_json s, refl, rw (Freedom.from_json-to_json s h) refl)
from_json-to_json_outbound_settings calls (of_blackhole s) h =
    (Blackhole.to_json s, refl, rw (Blackhole.from_json-to_json s h) refl)
from_json-to_json_outbound_settings calls (of_dns s) h =
    (Dns.to_json s, refl, rw (Dns.from_json-to_json s h) refl)
from_json-to_json_outbound_settings calls (of_vmess s) h =
    (Vmess.to_json s, refl, rw (Vmess.from_json-to_json s h) refl)
from_json-to_json_outbound_settings calls (of_vless s) h =
    (Vless.to_json calls.number s, refl, rw (Vless.from_json-to_json calls.number s h) refl)
from_json-to_json_outbound_settings calls (of_trojan s) h =
    (Trojan.to_json s, refl, rw (Trojan.from_json-to_json s h) refl)
from_json-to_json_outbound_settings calls (of_shadowsocks s) h =
    (Shadowsocks.to_json s, refl, rw (Shadowsocks.from_json-to_json s h) refl)
from_json-to_json_outbound_settings calls (of_socks s) h =
    (Socks.to_json s, refl, rw (Socks.from_json-to_json s h) refl)
from_json-to_json_outbound_settings calls (of_http s) h =
    (Http.to_json s, refl, rw (Http.from_json-to_json s h) refl)
from_json-to_json_outbound_settings calls (of_wireguard s) h =
    let (v, w, r) = WireguardTrip.from_json-to_json_wireguard_outbound calls s h in
    (v, w, rw r refl)
from_json-to_json_outbound_settings calls (of_hysteria s) h =
    (Hysteria.to_json s, refl, rw (Hysteria.from_json-to_json s h) refl)

-- The name of a protocol selects it.
pub protocol_of-name_of : (p : Protocol) → protocol_of (str (name_of p)) ≡ some p
protocol_of-name_of freedom = refl
protocol_of-name_of blackhole = refl
protocol_of-name_of dns = refl
protocol_of-name_of vmess = refl
protocol_of-name_of vless = refl
protocol_of-name_of trojan = refl
protocol_of-name_of shadowsocks = refl
protocol_of-name_of socks = refl
protocol_of-name_of http = refl
protocol_of-name_of wireguard = refl
protocol_of-name_of hysteria = refl
