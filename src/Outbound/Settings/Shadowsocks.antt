-- ===== src/Outbound/Settings/Shadowsocks.antt =====
-- `Outbound.ShadowsocksSettings` (web/assets/js/model/outbound.js).
use ax_ui.Common.{◌≡◌, refl, true, [], ◌∷◌, Result, ok, ◌>>=◌, if◌then◌else◌}
use ax_ui.Js.{undefined, Value, arr, obj, nil, cons, end, entries, reader}
use ax_ui.Js.Json.{erase, is_optional, erase_optional}
use ax_ui.Js.Lookup.{open_json, open_json-erase, reader-erase}
use ax_ui.Js.Index.{at_zero, at_zero-erase, is_arr_empty-erase}
use ax_ui.ObjectUtil.{is_arr_empty}

pub record ShadowsocksSettings : Type 0 where
  pub address : Value
  pub port : Value
  pub password : Value
  pub method : Value
  pub uot : Value
  pub uot_version : Value

-- The constructor with no argument.
abbrev pub new : ShadowsocksSettings
new = record {
  address = undefined;
  port = undefined;
  password = undefined;
  method = undefined;
  uot = undefined;
  uot_version = undefined;
}

-- The first server.
abbrev first_server : Value → Result ShadowsocksSettings
first_server servers = do
  v ← at_zero servers
  at ← reader v
  ok (record {
    address = at "address";
    port = at "port";
    password = at "password";
    method = at "method";
    uot = at "uot";
    uot_version = at "UoTVersion";
  })

unfoldable pub from_json : Value → Result ShadowsocksSettings
from_json json = do
  at ← open_json json
  first_server (if is_arr_empty (at "servers") then arr (cons (obj end) nil) else at "servers")

unfoldable pub to_json : ShadowsocksSettings → Value
to_json s = obj (
    entries (
      (
        "servers",
        arr (
            cons
              (obj (
                entries (
                  ("address", s.address)
                  ∷ ("port", s.port)
                  ∷ ("password", s.password)
                  ∷ ("method", s.method)
                  ∷ ("uot", s.uot)
                  ∷ ("UoTVersion", s.uot_version)
                  ∷ [])))
              nil),
      )
      ∷ []))

-- Every field holds a value that JSON can write, or `undefined`.
pub record IsJson (s : ShadowsocksSettings) : Type 0 where
  pub address : is_optional s.address ≡ true
  pub port : is_optional s.port ≡ true
  pub password : is_optional s.password ≡ true
  pub method : is_optional s.method ≡ true
  pub uot : is_optional s.uot ≡ true
  pub uot_version : is_optional s.uot_version ≡ true

-- `fromJson` gives back the Shadowsocks settings that `toJson` and JSON wrote, if JSON can write each field or
-- it is `undefined`.
pub from_json-to_json : (s : ShadowsocksSettings) → IsJson s → from_json (erase (to_json s)) ≡ ok s
unfolding from_json to_json
from_json-to_json s h = rw (open_json-erase _ _ refl) (
    rw
      (is_arr_empty-erase (
        entries (
          ("address", s.address)
          ∷ ("port", s.port)
          ∷ ("password", s.password)
          ∷ ("method", s.method)
          ∷ ("uot", s.uot)
          ∷ ("UoTVersion", s.uot_version)
          ∷ [])))
      (rw
        (at_zero-erase (
          entries (
            ("address", s.address)
            ∷ ("port", s.port)
            ∷ ("password", s.password)
            ∷ ("method", s.method)
            ∷ ("uot", s.uot)
            ∷ ("UoTVersion", s.uot_version)
            ∷ [])))
        (rw (reader-erase _ _ refl)
          (simp (erase_optional, h.address, h.port, h.password, h.method, h.uot, h.uot_version)))))
