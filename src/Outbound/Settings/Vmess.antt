-- ===== src/Outbound/Settings/Vmess.antt =====
-- `Outbound.VmessSettings` (web/assets/js/model/outbound.js).
use ax_ui.Common.{◌≡◌, refl, true, [], ◌∷◌, Result, ok, ◌>>=◌, Option, none, some, if◌then◌else◌}
use ax_ui.Js.{undefined, Value, arr, obj, nil, cons, end, entries, reader, or_value}
use ax_ui.Js.Json.{erase, is_optional, erase_optional}
use ax_ui.Js.Lookup.{open_json, open_json-erase, reader-erase, or_value-erase}
use ax_ui.Js.Index.{at_zero, at_zero-erase, is_arr_empty-erase}
use ax_ui.ObjectUtil.{is_arr_empty}

pub record VmessSettings : Type 0 where
  pub address : Value
  pub port : Value
  pub id : Value
  pub security : Value

-- The constructor with no argument.
abbrev pub new : VmessSettings
new = record { address = undefined; port = undefined; id = undefined; security = undefined }

-- The first server, and its first user; an empty list of users gives a user without properties.
abbrev first_user : Value → Result Value
first_user users = if is_arr_empty users then ok (obj end) else at_zero users

abbrev first_server : Value → Result VmessSettings
first_server v = do
  at ← reader v
  u ← first_user (at "users")
  of_user ← reader u
  ok (record {
    address = at "address";
    port = at "port";
    id = of_user "id";
    security = of_user "security";
  })

-- `none` stands for `undefined`, the result for an empty list of servers.
unfoldable pub from_json : Value → Result (Option VmessSettings)
from_json json = do
  at ← open_json json
  if is_arr_empty (at "vnext")
      then ok none
      else (do v ← at_zero (at "vnext"); s ← first_server (or_value v (obj end)); ok (some s))

abbrev user_object : VmessSettings → Value
user_object s = obj (entries (("id", s.id) ∷ ("security", s.security) ∷ []))

abbrev server_object : VmessSettings → Value
server_object s = obj (
    entries
      (("address", s.address) ∷ ("port", s.port) ∷ ("users", arr (cons (user_object s) nil)) ∷ []))

unfoldable pub to_json : VmessSettings → Value
to_json s = obj (entries (("vnext", arr (cons (server_object s) nil)) ∷ []))

-- Every field holds a value that JSON can write, or `undefined`.
pub record IsJson (s : VmessSettings) : Type 0 where
  pub address : is_optional s.address ≡ true
  pub port : is_optional s.port ≡ true
  pub id : is_optional s.id ≡ true
  pub security : is_optional s.security ≡ true

-- `fromJson` gives back the VMess settings that `toJson` and JSON wrote, if JSON can write each field or
-- it is `undefined`.
pub from_json-to_json : (s : VmessSettings) → IsJson s → from_json (erase (to_json s)) ≡ ok (some s)
unfolding from_json to_json
from_json-to_json s h = rw (open_json-erase _ _ refl) (
    rw
      (
        is_arr_empty-erase (
            entries (
              ("address", s.address)
              ∷ ("port", s.port)
              ∷ ("users", arr (cons (user_object s) nil))
              ∷ [])),
        at_zero-erase (
            entries (
              ("address", s.address)
              ∷ ("port", s.port)
              ∷ ("users", arr (cons (user_object s) nil))
              ∷ [])),
      )
      (rw (or_value-erase _ _) (
        rw (reader-erase _ _ refl) (
          rw
            (
              is_arr_empty-erase (entries (("id", s.id) ∷ ("security", s.security) ∷ [])),
              at_zero-erase (entries (("id", s.id) ∷ ("security", s.security) ∷ [])),
            )
            (rw (reader-erase _ _ refl)
              (simp (erase_optional, h.address, h.port, h.id, h.security)))))))
