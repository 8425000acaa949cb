-- ===== src/Inbound/Protocol.antt =====
-- `Inbound.Settings.getSettings` and `fromJson`, which choose the class of the settings by the protocol
-- (web/assets/js/model/inbound.js), and `toJson` of what they give.
pub mod RoundTrip
use ax_ui.Common.{
  List, [], ◌∷◌, ℕ, Result, ok, ◌>>=◌, Option, none, some, if◌then◌else◌, String, ◌==◌, false,
}
use ax_ui.Js.{Value, undefined, bool, str}
use ax_ui.Inbound.Fallback
use ax_ui.Inbound.Clients.Vmess as VmessClient
use ax_ui.Inbound.Clients.Vless as VlessClient
use ax_ui.Inbound.Clients.Trojan as TrojanClient
use ax_ui.Inbound.Clients.Shadowsocks as ShadowsocksClient
use ax_ui.Inbound.Clients.Awg
use ax_ui.Inbound.Clients.Nativewg as NativewgClient
use ax_ui.Inbound.Clients.Account
use ax_ui.Inbound.Settings.Vmess
use ax_ui.Inbound.Settings.Vless
use ax_ui.Inbound.Settings.Trojan
use ax_ui.Inbound.Settings.Shadowsocks
use ax_ui.Inbound.Settings.Tunnel
use ax_ui.Inbound.Settings.Mixed
use ax_ui.Inbound.Settings.Http
use ax_ui.Inbound.Settings.Wireguard
use ax_ui.Inbound.Settings.Tun
use ax_ui.Inbound.Settings.Amneziawg
use ax_ui.Inbound.Settings.Nativewg
use ax_ui.Inbound.Settings.Peer

-- `Protocols`
pub data Protocol : Type 0 where
  vmess vless trojan shadowsocks tunnel mixed http wireguard tun amneziawg nativewg : Protocol

pub data Settings : Type 0 where
  of_vmess : Vmess.VmessSettings → Settings
  of_vless : Vless.VlessSettings → Settings
  of_trojan : Trojan.TrojanSettings → Settings
  of_shadowsocks : Shadowsocks.ShadowsocksSettings → Settings
  of_tunnel : Tunnel.TunnelSettings → Settings
  of_mixed : Mixed.MixedSettings → Settings
  of_http : Http.HttpSettings → Settings
  of_wireguard : Wireguard.WireguardSettings → Settings
  of_tun : Tun.TunSettings → Settings
  of_amneziawg : Amneziawg.AmneziawgSettings → Settings
  of_nativewg : Nativewg.NativewgSettings → Settings

-- The random choices and the keys that the classes draw.
pub record Random : Type 0 where
  pub vmess : ℕ → VmessClient.Random
  pub vless : ℕ → VlessClient.Random
  pub trojan : ℕ → TrojanClient.Random
  pub shadowsocks : Shadowsocks.Random
  pub account : ℕ → Account.Random
  pub keys : Wireguard.Keys
  pub awg : ℕ → Awg.Random
  pub wg : ℕ → NativewgClient.Random

abbrev pub name_of : Protocol → String
name_of vmess = "vmess"
name_of vless = "vless"
name_of trojan = "trojan"
name_of shadowsocks = "shadowsocks"
name_of tunnel = "tunnel"
name_of mixed = "mixed"
name_of http = "http"
name_of wireguard = "wireguard"
name_of tun = "tun"
name_of amneziawg = "amneziawg"
name_of nativewg = "nativewg"

-- The `case` that a value selects.
abbrev pub protocol_of : Value → Option Protocol
protocol_of (str s) =
    if s == "vmess"
    then some vmess
    else if s == "vless"
    then some vless
    else if s == "trojan"
    then some trojan
    else if s == "shadowsocks"
    then some shadowsocks
    else if s == "tunnel"
    then some tunnel
    else if s == "mixed"
    then some mixed
    else if s == "http"
    then some http
    else if s == "wireguard"
    then some wireguard
    else if s == "tun"
    then some tun
    else if s == "amneziawg"
    then some amneziawg
    else if s == "nativewg"
    then some nativewg
    else none
protocol_of v = none

abbrev pub class_of : Settings → Protocol
class_of (of_vmess s) = vmess
class_of (of_vless s) = vless
class_of (of_trojan s) = trojan
class_of (of_shadowsocks s) = shadowsocks
class_of (of_tunnel s) = tunnel
class_of (of_mixed s) = mixed
class_of (of_http s) = http
class_of (of_wireguard s) = wireguard
class_of (of_tun s) = tun
class_of (of_amneziawg s) = amneziawg
class_of (of_nativewg s) = nativewg

-- The settings with the default values of their constructor.
abbrev pub new_settings : Random → Protocol → Result Settings
new_settings random vmess = do
  s ← ok (record { vmesses = VmessClient.new (random.vmess 0) ∷ [] })
  ok (of_vmess s)
new_settings random vless = do
  s ← ok (record {
    vlesses = VlessClient.new (random.vless 0) ∷ [];
    decryption = str "none";
    encryption = str "none";
    fallbacks = [];
    selected_auth = undefined;
    testseed = Vless.default_testseed;
  })
  ok (of_vless s)
new_settings random trojan = do
  s ← ok (record { trojans = TrojanClient.new (random.trojan 0) ∷ []; fallbacks = [] })
  ok (of_trojan s)
new_settings random shadowsocks = do
  s ← ok (record {
    method = str "2022-blake3-aes-256-gcm";
    password = random.shadowsocks.password;
    network = str "tcp,udp";
    shadowsockses = ShadowsocksClient.new (random.shadowsocks.client 0) ∷ [];
    iv_check = bool false;
  })
  ok (of_shadowsocks s)
new_settings random tunnel = do
  s ← ok (record {
    address = undefined;
    port = undefined;
    port_map = [];
    network = str "tcp,udp";
    follow_redirect = bool false;
  })
  ok (of_tunnel s)
new_settings random mixed = do
  s ← ok (record {
    auth = str "password";
    accounts = Account.new (random.account 0) ∷ [];
    udp = bool false;
    ip = str "127.0.0.1";
  })
  ok (of_mixed s)
new_settings random http = do
  s ← ok (record { accounts = Account.new (random.account 0) ∷ []; allow_transparent = bool false })
  ok (of_http s)
new_settings random wireguard = do
  s ← (do
    peer ← Peer.create (random.keys.pair 0) undefined undefined undefined undefined undefined
    Wireguard.create random.keys undefined undefined (peer ∷ []) undefined)
  ok (of_wireguard s)
new_settings random tun = do s ← ok Tun.new; ok (of_tun s)
new_settings random amneziawg = do
  s ← ok (record { clients = Awg.new (random.awg 0) ∷ [] })
  ok (of_amneziawg s)
new_settings random nativewg = do
  s ← ok (record { clients = NativewgClient.new (random.wg 0) ∷ [] })
  ok (of_nativewg s)

abbrev pub when_known : Option Protocol → (Protocol → Result Settings) → Result (Option Settings)
when_known none f = ok none
when_known (some p) f = do s ← f p; ok (some s)

-- `getSettings`
unfoldable pub get_settings : Random → Value → Result (Option Settings)
get_settings random protocol = when_known (protocol_of protocol) (new_settings random)

abbrev pub read : Random → Value → Protocol → Result Settings
read random json vmess = do s ← Vmess.from_json random.vmess json; ok (of_vmess s)
read random json vless = do s ← Vless.from_json random.vless json; ok (of_vless s)
read random json trojan = do s ← Trojan.from_json random.trojan json; ok (of_trojan s)
read random json shadowsocks = do
  s ← Shadowsocks.from_json random.shadowsocks json
  ok (of_shadowsocks s)
read random json tunnel = do s ← Tunnel.from_json json; ok (of_tunnel s)
read random json mixed = do s ← Mixed.from_json random.account json; ok (of_mixed s)
read random json http = do s ← Http.from_json random.account json; ok (of_http s)
read random json wireguard = do s ← Wireguard.from_json random.keys json; ok (of_wireguard s)
read random json tun = do s ← Tun.from_json json; ok (of_tun s)
read random json amneziawg = do s ← Amneziawg.from_json random.awg json; ok (of_amneziawg s)
read random json nativewg = do s ← Nativewg.from_json random.wg json; ok (of_nativewg s)

-- `fromJson`
unfoldable pub from_json : Random → Value → Value → Result (Option Settings)
from_json random protocol json = when_known (protocol_of protocol) (read random json)

unfoldable pub to_json : Settings → Result Value
to_json (of_vmess s) = Vmess.to_json s
to_json (of_vless s) = Vless.to_json s
to_json (of_trojan s) = Trojan.to_json s
to_json (of_shadowsocks s) = Shadowsocks.to_json s
to_json (of_tunnel s) = Tunnel.to_json s
to_json (of_mixed s) = Mixed.to_json s
to_json (of_http s) = Http.to_json s
to_json (of_wireguard s) = Wireguard.to_json s
to_json (of_tun s) = ok (Tun.to_json s)
to_json (of_amneziawg s) = Amneziawg.to_json s
to_json (of_nativewg s) = Nativewg.to_json s
