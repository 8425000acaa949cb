-- ===== src/Outbound/Settings/Wireguard.antt =====
-- `Outbound.WireguardSettings` (web/assets/js/model/outbound.js). The public key of a secret one, which
-- `Wireguard.generateKeypair` derives or for which it throws, and JavaScript's `Number` are arguments.
pub mod RoundTrip
use Prim.Native.Char.{Char}
use ax_ui.Common.{
  ◌≡◌, refl, true, false, not, ◌&&◌, ◌||◌, Bool, List, [], ◌∷◌, ◌++◌, map, ℕ, String, Result, ok,
  type_error, ◌>>=◌, traverse, All, any, erase_idx, if◌then◌else◌, Bool-cases, inl, inr, ap, ap,
  ◌∙◌, ◌==◌,
}
use ax_ui.Js.{
  undefined, null, Value, Values, bool, nat, str, arr, obj, nil, cons, strings, of_list, entries,
  default, truthy, equals_text, join_text, is_string,
}
use ax_ui.Js.Json.{erase, is_json, default-erase, erase-is_json}
use ax_ui.Js.Lookup.{open_json, open_json-erase, erase-undefined}
use ax_ui.Js.Arrays.{map_array, map_array-erase}
use ax_ui.Js.Elements.{erase-strings}
use ax_ui.Js.Text.{split, join-split}
use ax_ui.ObjectUtil.{has_elements}
use ax_ui.Inbound.Settings.Peer.{defined}
use ax_ui.Inbound.Settings.Peer.RoundTrip.{defined_back}
use ax_ui.Outbound.Settings.Peer

-- What the class calls: `generateKeypair(secret).publicKey`, and `Number(text)`.
pub record Calls : Type 0 where
  pub public_of : Value → Result Value
  pub number : String → Value

pub record WireguardSettings : Type 0 where
  pub mtu : Value
  pub secret_key : Value
  pub pub_key : Value
  pub address : Value
  pub workers : Value
  pub domain_strategy : Value
  pub reserved : Value
  pub peers : List Peer.Peer
  pub no_kernel_tun : Value

-- `secretKey.length > 0 ? Wireguard.generateKeypair(secretKey).publicKey : ''`
abbrev pub derived : Calls → Value → Result Value
derived calls undefined = type_error
derived calls null = type_error
derived calls v = if has_elements v then calls.public_of v else ok (str "")

-- `Array.isArray(v) ? v.join(',') : v`
unfoldable pub joined : Value → Value
joined (arr vs) = str (join_text "," vs)
joined v = v

-- The constructor, with the list of peers made.
unfoldable pub create :
    Calls
    → (mtu secret_key address workers domain_strategy reserved : Value) → List Peer.Peer
    → Value
    → Result WireguardSettings
create calls mtu secret_key address workers domain_strategy reserved peers no_kernel_tun = do
  let secret = default (str "") secret_key
  pub_key ← derived calls secret
  ok (record {
    mtu = default (nat 1420) mtu;
    secret_key = secret;
    pub_key = pub_key;
    address = joined (default (arr (cons (str "") nil)) address);
    workers = default (nat 2) workers;
    domain_strategy = default (str "") domain_strategy;
    reserved = joined (default (str "") reserved);
    peers = peers;
    no_kernel_tun = default (bool false) no_kernel_tun;
  })

unfoldable pub from_json : Calls → Value → Result WireguardSettings
from_json calls json = do
  at ← open_json json
  peers ← map_array (λ i. Peer.from_json) (at "peers")
  create calls (at "mtu") (at "secretKey") (at "address") (at "workers") (at "domainStrategy")
      (at "reserved") peers (at "noKernelTun")

abbrev pub comma : Char
comma = ","

-- `v ? v.split(",") : []`
unfoldable pub address_json : Value → Result Value
address_json (str s) = ok (if s == "" then arr nil else arr (strings (split comma s)))
address_json v = if truthy v then type_error else ok (arr nil)

abbrev pub numbers : (String → Value) → List String → Values
numbers number [] = nil
numbers number (s ∷ ss) = cons (number s) (numbers number ss)

-- `v ? v.split(",").map(Number) : undefined`
unfoldable pub reserved_json : (String → Value) → Value → Result Value
reserved_json number (str s) =
    ok (if s == "" then undefined else arr (numbers number (split comma s)))
reserved_json number v = if truthy v then type_error else ok undefined

-- `WireguardDomainStrategy`
abbrev domain_strategies : List String
domain_strategies = "ForceIP" ∷ "ForceIPv4" ∷ "ForceIPv4v6" ∷ "ForceIPv6" ∷ "ForceIPv6v4" ∷ []

unfoldable pub is_strategy : Value → Bool
is_strategy v = any (equals_text v) domain_strategies

abbrev pub object : WireguardSettings → (address reserved : Value) → List Value → Value
object s address reserved peers = obj (
    entries (
      ("mtu", defined s.mtu)
      ∷ ("secretKey", s.secret_key)
      ∷ ("address", address)
      ∷ ("workers", defined s.workers)
      ∷ ("domainStrategy", if is_strategy s.domain_strategy then s.domain_strategy else undefined)
      ∷ ("reserved", reserved)
      ∷ ("peers", arr (of_list peers))
      ∷ ("noKernelTun", s.no_kernel_tun)
      ∷ []))

unfoldable pub to_json : Calls → WireguardSettings → Result Value
to_json calls s = do
  address ← address_json s.address
  reserved ← reserved_json calls.number s.reserved
  peers ← traverse Peer.to_json s.peers
  ok (object s address reserved peers)

-- `addPeer` and `delPeer`.
unfoldable pub add_peer : WireguardSettings → WireguardSettings
add_peer s = record s { peers = s.peers ++ Peer.new ∷ [] }

unfoldable pub del_peer : WireguardSettings → ℕ → WireguardSettings
del_peer s i = record s { peers = erase_idx s.peers i }
