-- ===== src/Outbound/Settings/Http.antt =====
-- `Outbound.HttpSettings` (web/assets/js/model/outbound.js).
use ax_ui.Common.{
  ◌≡◌, refl, true, [], ◌∷◌, Result, ok, ◌>>=◌, if◌then◌else◌, Bool-cases, inl, inr, String, ◌∙◌,
}
use ax_ui.Js.{undefined, Value, str, arr, obj, nil, cons, end, entries, reader, property}
use ax_ui.Js.Json.{erase, is_optional, erase_optional}
use ax_ui.Js.Lookup.{open_json, open_json-erase, reader-erase}
use ax_ui.Js.Index.{at_zero, at_zero-erase, is_arr_empty-erase}
use ax_ui.ObjectUtil.{is_empty, is_arr_empty}

pub record HttpSettings : Type 0 where
  pub address : Value
  pub port : Value
  pub user : Value
  pub pass : Value

-- The constructor with no argument.
abbrev pub new : HttpSettings
new = record { address = undefined; port = undefined; user = undefined; pass = undefined }

-- `isArrEmpty(users) ? '' : users[0].key`
unfoldable pub first_user : String → Value → Result Value
first_user key users =
    if is_arr_empty users then ok (str "") else (do v ← at_zero users; at ← reader v; ok (at key))

abbrev first_server : Value → Result HttpSettings
first_server servers = do
  v ← at_zero servers
  at ← reader v
  user ← first_user "user" (at "users")
  pass ← first_user "pass" (at "users")
  ok (record { address = at "address"; port = at "port"; user = user; pass = pass })

-- A server with one user without properties, for an empty list of servers.
abbrev no_server : Value
no_server = arr (cons (obj (entries (("users", arr (cons (obj end) nil)) ∷ []))) nil)

unfoldable pub from_json : Value → Result HttpSettings
from_json json = do
  at ← open_json json
  first_server (if is_arr_empty (at "servers") then no_server else at "servers")

unfoldable pub users_json : HttpSettings → Value
users_json s =
    if is_empty s.user
    then arr nil
    else arr (cons (obj (entries (("user", s.user) ∷ ("pass", s.pass) ∷ []))) nil)

abbrev server_object : HttpSettings → Value
server_object s =
    obj (entries (("address", s.address) ∷ ("port", s.port) ∷ ("users", users_json s) ∷ []))

unfoldable pub to_json : HttpSettings → Value
to_json s = obj (entries (("servers", arr (cons (server_object s) nil)) ∷ []))

-- Every field holds a value that JSON can write, or `undefined`.
pub record IsJson (s : HttpSettings) : Type 0 where
  pub address : is_optional s.address ≡ true
  pub port : is_optional s.port ≡ true
  pub user : is_optional s.user ≡ true
  pub pass : is_optional s.pass ≡ true

-- What is kept: the user and the password where the user is not empty.
abbrev pub kept : HttpSettings → HttpSettings
kept s = if is_empty s.user then record s { user = str ""; pass = str "" } else s

no_user : (key : String) → first_user key (erase (arr nil)) ≡ ok (str "")
unfolding first_user erase
no_user key = refl

user_back :
    (s : HttpSettings) (key : String)
    → first_user key
        (erase (arr (cons (obj (entries (("user", s.user) ∷ ("pass", s.pass) ∷ []))) nil)))
      ≡ ok (erase (property key (entries (("user", s.user) ∷ ("pass", s.pass) ∷ []))))
unfolding first_user
user_back s key =
    rw
      (
        is_arr_empty-erase (entries (("user", s.user) ∷ ("pass", s.pass) ∷ [])),
        at_zero-erase (entries (("user", s.user) ∷ ("pass", s.pass) ∷ [])),
      )
      (rw (reader-erase _ _ refl) refl)

read_back :
    (s : HttpSettings) (user pass : Value)
    → IsJson s
    → first_user "user" (erase (users_json s)) ≡ ok user
    → first_user "pass" (erase (users_json s)) ≡ ok pass
    → from_json (erase (to_json s)) ≡ ok (record s { user = user; pass = pass })
unfolding from_json to_json
read_back s user pass h u p = rw (open_json-erase _ _ refl) (
    rw
      (is_arr_empty-erase
        (entries (("address", s.address) ∷ ("port", s.port) ∷ ("users", users_json s) ∷ [])))
      (rw
        (at_zero-erase
          (entries (("address", s.address) ∷ ("port", s.port) ∷ ("users", users_json s) ∷ [])))
        (rw (reader-erase _ _ refl) (rw (u, p) (simp (erase_optional, h.address, h.port))))))

-- `fromJson` gives back the HTTP settings that `toJson` and JSON wrote, without a password where
-- there is no user, if JSON can write each field or it is `undefined`.
pub from_json-to_json : (s : HttpSettings) → IsJson s → from_json (erase (to_json s)) ≡ ok (kept s)
unfolding users_json
from_json-to_json s h = elim (Bool-cases (is_empty s.user)) [
  | inl y ↦ rw y (read_back s _ _ h (rw y (no_user "user")) (rw y (no_user "pass")))
  | inr n ↦ rw n (
      read_back s (erase s.user) (erase s.pass) h (rw n (user_back s "user"))
        (rw n (user_back s "pass"))
      ∙ simp (erase_optional, h.user, h.pass))
]
