-- ===== src/Outbound/Stream/FinalMask.antt =====
-- `UdpMask` and `FinalMaskStreamSettings` (web/assets/js/model/outbound.js).
pub mod RoundTrip
use mathlib.Core.Path.{ap₂}
use ax_ui.Common.{
  ◌==◌, ◌||◌, ◌≡◌, refl, sym, ap, ◌∙◌, true, false, List, [], ◌∷◌, ◌++◌, map, Result, ok,
  type_error, ◌>>=◌, traverse, All, String, Bool, ◌&&◌, not, if◌then◌else◌, ℕ, erase_idx, arith,
}
use ax_ui.Js.{
  Values, Value, undefined, nat, str, arr, obj, nil, cons, Props, end, prop, entries, default,
  reader, or_value, truthy, is_nullish, elements, of_list,
}
use ax_ui.Js.Json.{erase, is_json, default-erase, default-is_json, erase_values, erase-is_json}
use ax_ui.Js.Lookup.{erase-undefined, reader-erase, open_json, open_json-erase, open_json-undefined}
use ax_ui.ObjectUtil.{own_props}

pub record UdpMask : Type 0 where
  pub type : Value
  pub settings : Value

-- The kinds of mask that `_getDefaultSettings` tells apart.
pub data Kind : Type 0 where
  password domain bare other : Kind

abbrev kind_of_text : String → Kind
kind_of_text t =
    if t == "salamander" || t == "mkcp-aes128gcm"
    then password
    else if t == "header-dns" || t == "xdns"
    then domain
    else if t == "mkcp-original"
        || t == "header-dtls"
        || t == "header-srtp"
        || t == "header-utp"
        || t == "header-wechat"
        || t == "header-wireguard"
    then bare
    else other

unfoldable pub kind : Value → Kind
kind (str t) = kind_of_text t
kind _ = other

abbrev pub password_settings : (String → Value) → Value
password_settings at = obj (entries (("password", or_value (at "password") (str "")) ∷ []))

abbrev pub domain_settings : (String → Value) → Value
domain_settings at = obj (entries (("domain", or_value (at "domain") (str "")) ∷ []))

-- `_getDefaultSettings`, by the kind of mask.
abbrev pub settings_for : Kind → Value → Result Value
settings_for password v = do at ← reader v; ok (password_settings at)
settings_for domain v = do at ← reader v; ok (domain_settings at)
settings_for bare v = ok (obj end)
settings_for other v = ok v

unfoldable pub default_settings : Value → Value → Result Value
unfolding kind
default_settings type settings = settings_for (kind type) (default (obj end) settings)

-- The constructor of `UdpMask`.
unfoldable pub create : Value → Value → Result UdpMask
create type settings = do
  let t = default (str "salamander") type
  s ← default_settings t (default (obj end) settings)
  ok (record { type = t; settings = s })

-- `UdpMask.fromJson`
unfoldable pub mask_from_json : Value → Result UdpMask
mask_from_json json = do
  at ← open_json json
  create (or_value (at "type") (str "salamander")) (or_value (at "settings") (obj end))

abbrev pub is_end : Props → Bool
is_end end = true
is_end _ = false

-- `Object.keys(v).length > 0`
abbrev pub has_keys : Value → Bool
has_keys v = not (is_end (own_props v))

unfoldable pub mask_to_json : UdpMask → Value
mask_to_json m = obj (
    entries (
      ("type", m.type)
      ∷ ("settings", if truthy m.settings && has_keys m.settings then m.settings else undefined)
      ∷ []))

pub record FinalMask : Type 0 where
  pub udp : List UdpMask

-- `new UdpMask(u.type, u.settings)`
unfoldable pub mask_of : Value → Result UdpMask
mask_of u = do at ← reader u; create (at "type") (at "settings")

-- The constructor's list: a mask for each element, or one for a value that is no array.
abbrev pub masks_of : Value → Result (List UdpMask)
masks_of (arr vs) = traverse mask_of (elements vs)
masks_of v = do m ← mask_of v; ok (m ∷ [])

abbrev pub new : FinalMask
new = record { udp = [] }

unfoldable pub from_json : Value → Result FinalMask
from_json json = do
  at ← open_json json
  udp ← masks_of (or_value (at "udp") (arr nil))
  ok (record { udp = udp })

unfoldable pub to_json : FinalMask → Value
to_json s = obj (entries (("udp", arr (of_list (map mask_to_json s.udp))) ∷ []))

-- Adding a mask of a kind, and removing the one at a place (`addUdpMask` and `delUdpMask`).
unfoldable pub add_mask : FinalMask → Value → Result FinalMask
add_mask s type = do m ← create type undefined; ok (record s { udp = s.udp ++ m ∷ [] })

unfoldable pub del_mask : FinalMask → ℕ → FinalMask
del_mask s i = record s { udp = erase_idx s.udp i }
