-- ===== src/Outbound/Settings/Trojan.antt =====
-- `Outbound.TrojanSettings` (web/assets/js/model/outbound.js).
use ax_ui.Common.{◌≡◌, refl, true, [], ◌∷◌, Result, ok, ◌>>=◌, if◌then◌else◌}
use ax_ui.Js.{undefined, Value, arr, obj, nil, cons, entries, reader}
use ax_ui.Js.Json.{erase, is_optional, erase_optional}
use ax_ui.Js.Lookup.{open_json, open_json-erase, reader-erase}
use ax_ui.Js.Index.{at_zero, at_zero-erase, is_arr_empty-erase}
use ax_ui.ObjectUtil.{is_arr_empty}

pub record TrojanSettings : Type 0 where
  pub address : Value
  pub port : Value
  pub password : Value

-- The constructor with no argument.
abbrev pub new : TrojanSettings
new = record { address = undefined; port = undefined; password = undefined }

-- The first server.
abbrev first_server : Value → Result TrojanSettings
first_server servers = do
  v ← at_zero servers
  at ← reader v
  ok (record { address = at "address"; port = at "port"; password = at "password" })

unfoldable pub from_json : Value → Result TrojanSettings
from_json json = do
  at ← open_json json
  if is_arr_empty (at "servers") then ok new else first_server (at "servers")

unfoldable pub to_json : TrojanSettings → Value
to_json s = obj (
    entries (
      (
        "servers",
        arr (
            cons
              (obj (
                entries
                  (("address", s.address) ∷ ("port", s.port) ∷ ("password", s.password) ∷ [])))
              nil),
      )
      ∷ []))

-- Every field holds a value that JSON can write, or `undefined`.
pub record IsJson (s : TrojanSettings) : Type 0 where
  pub address : is_optional s.address ≡ true
  pub port : is_optional s.port ≡ true
  pub password : is_optional s.password ≡ true

-- `fromJson` gives back the Trojan settings that `toJson` and JSON wrote, if JSON can write each field or
-- it is `undefined`.
pub from_json-to_json : (s : TrojanSettings) → IsJson s → from_json (erase (to_json s)) ≡ ok s
unfolding from_json to_json
from_json-to_json s h = rw (open_json-erase _ _ refl) (
    rw
      (is_arr_empty-erase
        (entries (("address", s.address) ∷ ("port", s.port) ∷ ("password", s.password) ∷ [])))
      (rw
        (at_zero-erase
          (entries (("address", s.address) ∷ ("port", s.port) ∷ ("password", s.password) ∷ [])))
        (rw (reader-erase _ _ refl) (simp (erase_optional, h.address, h.port, h.password)))))
