-- ===== src/Inbound/Settings/Peer.antt =====
-- `Inbound.WireguardSettings.Peer` (web/assets/js/model/inbound.js). A key pair that the constructor
-- draws is an argument, its public key first.
pub mod RoundTrip
use Prim.Native.Char.{code}
use Prim.Native.String
use mathlib.Core.Path.{ap₂}
use text.Mathlib.TextLemmas.{cons-append}
use ax_ui.Common.{
  ◌≡◌, refl, sym, eq_iff, ap, true, false, not, ◌&&◌, ◌||◌, List, [], ◌∷◌, map, Result, ok,
  type_error, ◌>>=◌, traverse, Bool, if◌then◌else◌, eqb, String, ◌==◌, Bool-cases, inl, inr, arith,
  any,
}
use ax_ui.Js.{
  Value, Values, undefined, null, bool, num, nat, str, arr, obj, nil, cons, entries, default,
  of_list, elements, strings, truthy, equals_text, is_nullish, to_text, is_string,
}
use ax_ui.Js.Json.{erase, is_json, is_optional, erase-is_json, erase_optional}
use ax_ui.Js.Elements.{erase-strings}
use ax_ui.Js.Lookup.{open_json, open_json-erase, erase-undefined}
use ax_ui.Js.Arrays.{ReadsBack}
use ax_ui.ObjectUtil.{has_elements}

pub record KeyPair : Type 0 where
  pub public : Value
  pub private : Value

pub record Peer : Type 0 where
  pub private_key : Value
  pub public_key : Value
  pub psk : Value
  pub allowed_ips : Value
  pub keep_alive : Value

-- `a.includes('/')`
abbrev pub has_slash : String → Bool
has_slash String.[] = false
has_slash (String.◌∷◌ c s) = eqb (code c) b'/' || has_slash s

-- An address without a prefix length gets `/32`.
pub complete_ip : String → String
complete_ip s = if not (s == "") && not (has_slash s) then String.◌++◌ s "/32" else s

-- The same for any element: what has no `length` is left alone.
abbrev pub complete : Value → Result Value
complete undefined = type_error
complete null = type_error
complete (str s) = ok (str (complete_ip s))
complete (arr nil) = ok (arr nil)
complete (arr (cons v vs)) =
    if any (λ w. equals_text w "/") (v ∷ elements vs)
    then ok (arr (cons v vs))
    else ok (str (String.◌++◌ (to_text (arr (cons v vs))) "/32"))
complete (obj ps) = if has_elements (obj ps) then type_error else ok (obj ps)
complete v = ok v

-- `allowedIPs.forEach(…)`, in place; only an array has `forEach`.
abbrev pub complete_all : Value → Result Value
complete_all (arr vs) = do ws ← traverse complete (elements vs); ok (arr (of_list ws))
complete_all v = type_error

-- The constructor, with the default values put in.
unfoldable pub create :
    KeyPair → (private_key public_key psk allowed_ips keep_alive : Value) → Result Peer
create pair private_key public_key psk allowed_ips keep_alive = do
  ips ← complete_all (default (arr (cons (str "10.0.0.2/32") nil)) allowed_ips)
  ok (record {
    private_key = if truthy public_key then private_key else pair.private;
    public_key = if truthy public_key then public_key else pair.public;
    psk = default (str "") psk;
    allowed_ips = ips;
    keep_alive = default (nat 0) keep_alive;
  })

unfoldable pub from_json : KeyPair → Value → Result Peer
from_json pair json = do
  at ← open_json json
  create pair (at "privateKey") (at "publicKey") (at "preSharedKey") (at "allowedIPs")
      (at "keepAlive")

-- `v.length > 0 ? v : undefined`
abbrev pub if_nonempty : Value → Result Value
if_nonempty undefined = type_error
if_nonempty null = type_error
if_nonempty v = ok (if has_elements v then v else undefined)

-- `v ?? undefined`
abbrev pub defined : Value → Value
defined v = if is_nullish v then undefined else v

abbrev pub object : Peer → Value → Value → Value
object p psk ips = obj (
    entries (
      ("privateKey", p.private_key)
      ∷ ("publicKey", p.public_key)
      ∷ ("preSharedKey", psk)
      ∷ ("allowedIPs", ips)
      ∷ ("keepAlive", defined p.keep_alive)
      ∷ []))

unfoldable pub to_json : Peer → Result Value
to_json p = do ips ← complete_all p.allowed_ips; psk ← if_nonempty p.psk; ok (object p psk ips)

-- The keys and the interval are values that JSON can write, the public key is not empty, the shared
-- key is a text, and the addresses are a list of texts.
pub record IsJson (p : Peer) : Type 0 where
  pub private_key : is_optional p.private_key ≡ true
  pub public_key : is_json p.public_key ≡ true
  pub has_public : truthy p.public_key ≡ true
  pub psk : is_string p.psk ≡ true
  pub keep_alive : is_json p.keep_alive ≡ true
  pub allowed_ips : (ips : List String) × (p.allowed_ips ≡ arr (strings ips))
