-- ===== src/Outbound/Settings/Hysteria.antt =====
-- `Outbound.HysteriaSettings` (web/assets/js/model/outbound.js).
use ax_ui.Common.{◌≡◌, refl, true, [], ◌∷◌, Result, ok, ◌>>=◌, if◌then◌else◌}
use ax_ui.Js.{Value, str, nat, obj, end, entries, default, reader}
use ax_ui.Js.Json.{erase, is_json, default-erase}
use ax_ui.Js.Lookup.{default-erase_obj, reader-erase}
use ax_ui.Stream.Sockopt.{has_no_keys, has_no_keys-erase}

pub record HysteriaSettings : Type 0 where
  pub address : Value
  pub port : Value
  pub version : Value

-- The constructor with no argument.
abbrev pub new : HysteriaSettings
new = record { address = str ""; port = nat 443; version = nat 2 }

unfoldable pub from_json : Value → Result HysteriaSettings
from_json json = do
  empty ← has_no_keys (default (obj end) json)
  at ← reader (default (obj end) json)
  ok (
      if empty then new else record {
        address = default new.address (at "address");
        port = default new.port (at "port");
        version = default new.version (at "version");
      })

unfoldable pub to_json : HysteriaSettings → Value
to_json s = obj (entries (("address", s.address) ∷ ("port", s.port) ∷ ("version", s.version) ∷ []))

-- Every field holds a value that JSON can write.
pub record IsJson (s : HysteriaSettings) : Type 0 where
  pub address : is_json s.address ≡ true
  pub port : is_json s.port ≡ true
  pub version : is_json s.version ≡ true

-- `fromJson` gives back the Hysteria settings that `toJson` and JSON wrote, if JSON can write each field.
pub from_json-to_json : (s : HysteriaSettings) → IsJson s → from_json (erase (to_json s)) ≡ ok s
unfolding from_json to_json
from_json-to_json s h = rw (default-erase_obj _ _) (
    rw (has_no_keys-erase _ _ _ h.address)
      (rw (reader-erase _ _ refl) (simp (default-erase, h.address, h.port, h.version))))
