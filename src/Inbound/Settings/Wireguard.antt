-- ===== src/Inbound/Settings/Wireguard.antt =====
-- `Inbound.WireguardSettings` (web/assets/js/model/inbound.js). The key generator is an argument: a
-- secret key and the pairs that it draws, and the public key of a secret one, which it derives or for
-- which it throws.
use ax_ui.Common.{
  ◌≡◌, refl, true, false, List, [], ◌∷◌, map, Result, ok, type_error, ◌>>=◌, traverse, All,
  if◌then◌else◌, ℕ, ◌+◌, ◌++◌, length, erase_idx,
}
use ax_ui.Js.{
  Value, undefined, null, bool, nat, str, arr, obj, nil, cons, entries, default, of_list, show_ℕ,
}
use ax_ui.Js.Json.{erase, is_json, default-erase}
use ax_ui.Js.Lookup.{open_json, open_json-erase}
use ax_ui.Js.Arrays.{map_array, map_array-erase}
use ax_ui.ObjectUtil.{has_elements}
use ax_ui.Inbound.Settings.Peer
use ax_ui.Inbound.Settings.Peer.RoundTrip as PeerTrip
use Prim.Native.String

pub record Keys : Type 0 where
  pub secret_key : Value
  pub public_of : Value → Result Value
  pub pair : ℕ → Peer.KeyPair

pub record WireguardSettings : Type 0 where
  pub mtu : Value
  pub secret_key : Value
  pub pub_key : Value
  pub peers : List Peer.Peer
  pub no_kernel_tun : Value

-- `secretKey.length > 0 ? Wireguard.generateKeypair(secretKey).publicKey : ''`
abbrev pub derived : Keys → Value → Result Value
derived keys undefined = type_error
derived keys null = type_error
derived keys v = if has_elements v then keys.public_of v else ok (str "")

-- The constructor, with the list of peers made.
unfoldable pub create :
    Keys → (mtu secret_key : Value) → List Peer.Peer → Value → Result WireguardSettings
create keys mtu secret_key peers no_kernel_tun =
    let secret = default keys.secret_key secret_key in
    do
      pub_key ← derived keys secret
      ok (record {
        mtu = default (nat 1420) mtu;
        secret_key = secret;
        pub_key = pub_key;
        peers = peers;
        no_kernel_tun = default (bool false) no_kernel_tun;
      })

unfoldable pub from_json : Keys → Value → Result WireguardSettings
from_json keys json = do
  at ← open_json json
  peers ← map_array (λ i. Peer.from_json (keys.pair i)) (at "peers")
  create keys (at "mtu") (at "secretKey") peers (at "noKernelTun")

abbrev object : WireguardSettings → List Value → Value
object s peers = obj (
    entries (
      ("mtu", Peer.defined s.mtu)
      ∷ ("secretKey", s.secret_key)
      ∷ ("peers", arr (of_list peers))
      ∷ ("noKernelTun", s.no_kernel_tun)
      ∷ []))

unfoldable pub to_json : WireguardSettings → Result Value
to_json s = do peers ← traverse Peer.to_json s.peers; ok (object s peers)

-- `addPeer` and `delPeer`.
unfoldable pub add_peer : Peer.KeyPair → WireguardSettings → Result WireguardSettings
add_peer pair s = do
  peer ←
      Peer.create pair null null (str "")
        (arr (cons (str (String.◌++◌ "10.0.0." (show_ℕ (length s.peers + 2)))) nil)) undefined
  ok (record s { peers = s.peers ++ peer ∷ [] })

unfoldable pub del_peer : WireguardSettings → ℕ → WireguardSettings
del_peer s i = record s { peers = erase_idx s.peers i }

-- Every field holds a value that JSON can write, and the public key is that of the secret key.
pub record IsJson (keys : Keys) (s : WireguardSettings) : Type 0 where
  pub mtu : is_json s.mtu ≡ true
  pub secret_key : is_json s.secret_key ≡ true
  pub pub_key : derived keys s.secret_key ≡ ok s.pub_key
  pub peers : All Peer.IsJson s.peers
  pub no_kernel_tun : is_json s.no_kernel_tun ≡ true

-- What is kept: what is kept of each peer, and 1420 for an MTU that is `null`.
abbrev pub kept : WireguardSettings → WireguardSettings
kept s = record s { mtu = PeerTrip.present_or (nat 1420) s.mtu; peers = map PeerTrip.kept s.peers }

-- WireGuard settings come back from JSON with their public key derived again, with what is kept of each
-- peer, and with 1420 for an MTU that is `null`, if JSON can write each field and the public key is
-- that of the secret key.
pub from_json-to_json_wireguard :
    (keys : Keys) (s : WireguardSettings)
    → IsJson keys s
    → (v : Value) × (to_json s ≡ ok v) × (from_json keys (erase v) ≡ ok (kept s))
unfolding from_json to_json create
from_json-to_json_wireguard keys s h =
    let (vs, w, r) =
      map_array-erase Peer.to_json (λ i. Peer.from_json (keys.pair i)) PeerTrip.kept Peer.IsJson
        (λ i. PeerTrip.from_json-to_json_peer (keys.pair i)) s.peers h.peers in
    (
      object s vs,
      rw w,
      rw (open_json-erase _ _ refl) (
          rw (r, default-erase keys.secret_key s.secret_key h.secret_key)
            (rw (h.pub_key, PeerTrip.defined_back (nat 1420) s.mtu h.mtu)
              (simp (default-erase, h.no_kernel_tun)))),
    )
