-- ===== src/Inbound/Protocol/RoundTrip.antt =====
-- The settings of an inbound through `toJson`, JSON and `fromJson` (web/assets/js/model/inbound.js).
use ax_ui.Common.{◌≡◌, refl, map, ok, some}
use ax_ui.Js.{Value, str}
use ax_ui.Js.Json.{erase}
use ax_ui.Inbound.Protocol.{
  Settings, Random, class_of, name_of, read, to_json, protocol_of, Protocol, of_vmess, vmess,
  of_vless, vless, of_trojan, trojan, of_shadowsocks, shadowsocks, of_tunnel, tunnel, of_mixed,
  mixed, of_http, http, of_wireguard, wireguard, of_tun, tun, of_amneziawg, amneziawg, of_nativewg,
  nativewg,
}
use ax_ui.Inbound.Fallback
use ax_ui.Inbound.Clients.Vmess as VmessClient
use ax_ui.Inbound.Clients.Trojan as TrojanClient
use ax_ui.Inbound.Clients.Shadowsocks as ShadowsocksClient
use ax_ui.Inbound.Clients.Awg
use ax_ui.Inbound.Clients.Nativewg as NativewgClient
use ax_ui.Inbound.Clients.Account
use ax_ui.Inbound.Settings.Vmess
use ax_ui.Inbound.Settings.Vless
use ax_ui.Inbound.Settings.Trojan
use ax_ui.Inbound.Settings.Shadowsocks
use ax_ui.Inbound.Settings.Tunnel
use ax_ui.Inbound.Settings.Mixed
use ax_ui.Inbound.Settings.Http
use ax_ui.Inbound.Settings.Wireguard
use ax_ui.Inbound.Settings.Tun
use ax_ui.Inbound.Settings.Amneziawg
use ax_ui.Inbound.Settings.Nativewg

-- JSON can write the settings, as the class of each says.
abbrev pub IsJson : Random → Settings → Type 0
IsJson random (of_vmess s) = Vmess.IsJson s
IsJson random (of_vless s) = Vless.IsJson s
IsJson random (of_trojan s) = Trojan.IsJson s
IsJson random (of_shadowsocks s) = Shadowsocks.IsJson s
IsJson random (of_tunnel s) = Tunnel.IsJson s
IsJson random (of_mixed s) = Mixed.IsJson s
IsJson random (of_http s) = Http.IsJson s
IsJson random (of_wireguard s) = Wireguard.IsJson random.keys s
IsJson random (of_tun s) = Tun.IsJson s
IsJson random (of_amneziawg s) = Amneziawg.IsJson s
IsJson random (of_nativewg s) = Nativewg.IsJson s

-- What is kept of the settings.
abbrev pub kept : Random → Settings → Settings
kept random (of_vmess s) = of_vmess (record s { vmesses = map VmessClient.kept s.vmesses })
kept random (of_vless s) = of_vless (Vless.kept s)
kept random (of_trojan s) = of_trojan (record {
  trojans = map TrojanClient.kept s.trojans;
  fallbacks = map Fallback.kept s.fallbacks;
})
kept random (of_shadowsocks s) =
    of_shadowsocks (record s { shadowsockses = map ShadowsocksClient.kept s.shadowsockses })
kept random (of_tunnel s) = of_tunnel (s)
kept random (of_mixed s) = of_mixed (Mixed.kept random.account s)
kept random (of_http s) = of_http (record s { accounts = map Account.kept s.accounts })
kept random (of_wireguard s) = of_wireguard (Wireguard.kept s)
kept random (of_tun s) = of_tun (Tun.kept s)
kept random (of_amneziawg s) = of_amneziawg (record s { clients = map Awg.kept s.clients })
kept random (of_nativewg s) = of_nativewg (record s { clients = map NativewgClient.kept s.clients })

-- Settings of each protocol come back from JSON as their class keeps them, if JSON can write them.
pub from_json-to_json_settings :
    (random : Random) (s : Settings)
    → IsJson random s
    → (v : Value) × (to_json s ≡ ok v) × (read random (erase v) (class_of s) ≡ ok (kept random s))
unfolding to_json
from_json-to_json_settings random (of_vmess s) h =
    let (v, w, r) = Vmess.from_json-to_json_vmess random.vmess s h in (v, w, rw r refl)
from_json-to_json_settings random (of_vless s) h =
    let (v, w, r) = Vless.from_json-to_json_vless random.vless s h in (v, w, rw r refl)
from_json-to_json_settings random (of_trojan s) h =
    let (v, w, r) = Trojan.from_json-to_json_trojan random.trojan s h in (v, w, rw r refl)
from_json-to_json_settings random (of_shadowsocks s) h =
    let (v, w, r) = Shadowsocks.from_json-to_json_shadowsocks random.shadowsocks s h in
    (v, w, rw r refl)
from_json-to_json_settings random (of_tunnel s) h =
    let (v, w, r) = Tunnel.from_json-to_json_tunnel s h in (v, w, rw r refl)
from_json-to_json_settings random (of_mixed s) h =
    let (v, w, r) = Mixed.from_json-to_json_mixed random.account s h in (v, w, rw r refl)
from_json-to_json_settings random (of_http s) h =
    let (v, w, r) = Http.from_json-to_json_http random.account s h in (v, w, rw r refl)
from_json-to_json_settings random (of_wireguard s) h =
    let (v, w, r) = Wireguard.from_json-to_json_wireguard random.keys s h in (v, w, rw r refl)
from_json-to_json_settings random (of_tun s) h =
    (Tun.to_json s, refl, rw (Tun.from_json-to_json_tun s h) refl)
from_json-to_json_settings random (of_amneziawg s) h =
    let (v, w, r) = Amneziawg.from_json-to_json_awg random.awg s h in (v, w, rw r refl)
from_json-to_json_settings random (of_nativewg s) h =
    let (v, w, r) = Nativewg.from_json-to_json_wg random.wg s h in (v, w, rw r refl)

-- The name of a protocol selects it.
pub protocol_of-name_of : (p : Protocol) → protocol_of (str (name_of p)) ≡ some p
protocol_of-name_of vmess = refl
protocol_of-name_of vless = refl
protocol_of-name_of trojan = refl
protocol_of-name_of shadowsocks = refl
protocol_of-name_of tunnel = refl
protocol_of-name_of mixed = refl
protocol_of-name_of http = refl
protocol_of-name_of wireguard = refl
protocol_of-name_of tun = refl
protocol_of-name_of amneziawg = refl
protocol_of-name_of nativewg = refl
