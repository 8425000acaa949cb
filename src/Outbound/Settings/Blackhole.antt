-- ===== src/Outbound/Settings/Blackhole.antt =====
-- `Outbound.BlackholeSettings` (web/assets/js/model/outbound.js).
use ax_ui.Common.{◌≡◌, refl, true, [], ◌∷◌, Result, ok, ◌>>=◌, if◌then◌else◌, Bool-cases, inl, inr}
use ax_ui.Js.{undefined, Value, obj, entries, reader, truthy}
use ax_ui.Js.Json.{erase, is_optional, erase_optional}
use ax_ui.Js.Lookup.{open_json, open_json-erase, reader-erase, erase-undefined, truthy-erase_obj}
use ax_ui.ObjectUtil.{is_empty}

pub record BlackholeSettings : Type 0 where
  pub type : Value

-- The constructor with no argument.
abbrev pub new : BlackholeSettings
new = record { type = undefined }

-- `json.response ? json.response.type : undefined`
unfoldable pub response_type : Value → Result Value
response_type v = if truthy v then (do at ← reader v; ok (at "type")) else ok undefined

unfoldable pub from_json : Value → Result BlackholeSettings
from_json json = do
  at ← open_json json
  type ← response_type (at "response")
  ok (record { type = type })

unfoldable pub response_json : Value → Value
response_json type = if is_empty type then undefined else obj (entries (("type", type) ∷ []))

unfoldable pub to_json : BlackholeSettings → Value
to_json s = obj (entries (("response", response_json s.type) ∷ []))

-- The type is a value that JSON can write, or `undefined`.
abbrev pub IsJson : BlackholeSettings → Type 0
IsJson s = is_optional s.type ≡ true

-- What is kept: a type that is not empty.
abbrev pub kept : BlackholeSettings → BlackholeSettings
kept s = record { type = if is_empty s.type then undefined else s.type }

response_back :
    (t : Value)
    → is_optional t ≡ true
    → response_type (erase (response_json t)) ≡ ok (if is_empty t then undefined else t)
unfolding response_type response_json
response_back t h = elim (Bool-cases (is_empty t)) [
  | inl y ↦ rw y (rw erase-undefined)
  | inr n ↦ rw n (
      rw (truthy-erase_obj (entries (("type", t) ∷ [])))
        (rw (reader-erase _ _ refl) (rw (erase_optional t h))))
]

-- `fromJson` gives back the Blackhole settings that `toJson` and JSON wrote, without an empty type.
pub from_json-to_json :
    (s : BlackholeSettings) → IsJson s → from_json (erase (to_json s)) ≡ ok (kept s)
unfolding from_json to_json
from_json-to_json s h = rw (open_json-erase _ _ refl) (rw (response_back s.type h))
