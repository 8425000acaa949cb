-- ===== src/Inbound/Settings/Tun.antt =====
-- `Inbound.TunSettings` (web/assets/js/model/inbound.js).
use ax_ui.Common.{arith, ◌≡◌, refl, true, false, [], ◌∷◌, Result, ok, ◌>>=◌}
use ax_ui.Js.{Value, nat, str, obj, entries, or_value, truthy}
use ax_ui.Js.Json.{erase, is_json, erase-is_json}
use ax_ui.Js.Lookup.{open_json, open_json-erase}
use ax_ui.Js.{is_nullish}
use ax_ui.Js.Operators.{or_nullish}

pub record TunSettings : Type 0 where
  pub name : Value
  pub mtu : Value
  pub user_level : Value

abbrev pub new : TunSettings
new = record { name = str "xray0"; mtu = nat 1500; user_level = nat 0 }

unfoldable pub from_json : Value → Result TunSettings
from_json json = do
  at ← open_json json
  ok (record {
    name = or_nullish (at "name") new.name;
    mtu = or_nullish (or_nullish (at "mtu") (at "MTU")) new.mtu;
    user_level = or_nullish (at "userLevel") new.user_level;
  })

unfoldable pub to_json : TunSettings → Value
to_json s = obj (
    entries (
      ("name", or_value s.name new.name)
      ∷ ("mtu", or_value s.mtu new.mtu)
      ∷ ("userLevel", or_value s.user_level new.user_level)
      ∷ []))

-- Every field holds a value that JSON can write.
pub record IsJson (s : TunSettings) : Type 0 where
  pub name : is_json s.name ≡ true
  pub mtu : is_json s.mtu ≡ true
  pub user_level : is_json s.user_level ≡ true

-- What is kept: a falsy value becomes the default of its field.
abbrev pub kept : TunSettings → TunSettings
kept s = record {
  name = or_value s.name new.name;
  mtu = or_value s.mtu new.mtu;
  user_level = or_value s.user_level new.user_level;
}

written : (v d : Value) → is_json v ≡ true → is_json d ≡ true → erase (or_value v d) ≡ or_value v d
written v d h k = erase-is_json _ (ground arith)

not_nullish : (v d : Value) → truthy d ≡ true → is_nullish (or_value v d) ≡ false
not_nullish v d h = ground arith

not_nullish_zero : (v : Value) → is_nullish (or_value v (nat 0)) ≡ false
not_nullish_zero v = ground arith

-- TUN settings come back from JSON with the default for each falsy value, if JSON can write
-- each field.
pub from_json-to_json_tun :
    (s : TunSettings) → IsJson s → from_json (erase (to_json s)) ≡ ok (kept s)
unfolding from_json to_json is_json
from_json-to_json_tun s h = rw (open_json-erase _ _ refl) (
    rw
      (
        written s.name new.name h.name refl,
        written s.mtu new.mtu h.mtu refl,
        written s.user_level new.user_level h.user_level refl,
      )
      (simp (not_nullish, not_nullish_zero)))
