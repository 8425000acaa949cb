-- ===== src/Inbound/Clients/Shadowsocks.antt =====
-- `Inbound.ShadowsocksSettings.Shadowsocks` (web/assets/js/model/inbound.js). The values that the constructor draws at random are
-- an argument.
use ax_ui.Common.{◌≡◌, refl, true, [], ◌∷◌, Result, ok, ◌>>=◌}
use ax_ui.Js.{Value, undefined, bool, nat, str, obj, entries, default}
use ax_ui.Js.Json.{is_json, is_optional, default-erase, optional-erase}
use ax_ui.Js.Lookup.{open_json, open_json-erase}
use ax_ui.Js.Arrays.{ReadsBack}

-- One outcome of the random choices.
pub record Random : Type 0 where
  pub password : Value
  pub email : Value
  pub sub_id : Value

pub record Shadowsocks : Type 0 where
  pub method : Value
  pub password : Value
  pub email : Value
  pub limit_ip : Value
  pub total_gb : Value
  pub expiry_time : Value
  pub enable : Value
  pub tg_id : Value
  pub sub_id : Value
  pub comment : Value
  pub reset : Value
  pub created_at : Value
  pub updated_at : Value

-- The constructor with no argument.
abbrev pub new : Random → Shadowsocks
new random = record {
  method = str "";
  password = random.password;
  email = random.email;
  limit_ip = nat 0;
  total_gb = nat 0;
  expiry_time = nat 0;
  enable = bool true;
  tg_id = str "";
  sub_id = random.sub_id;
  comment = str "";
  reset = nat 0;
  created_at = undefined;
  updated_at = undefined;
}

unfoldable pub from_json : Random → Value → Result Shadowsocks
from_json random json = do
  at ← open_json json
  ok (record {
    method = default (str "") (at "method");
    password = default (random.password) (at "password");
    email = default (random.email) (at "email");
    limit_ip = default (nat 0) (at "limitIp");
    total_gb = default (nat 0) (at "totalGB");
    expiry_time = default (nat 0) (at "expiryTime");
    enable = default (bool true) (at "enable");
    tg_id = default (str "") (at "tgId");
    sub_id = default (random.sub_id) (at "subId");
    comment = default (str "") (at "comment");
    reset = default (nat 0) (at "reset");
    created_at = default (undefined) (at "created_at");
    updated_at = default (undefined) (at "updated_at");
  })

unfoldable pub to_json : Shadowsocks → Result Value
to_json c = ok (
    obj (
      entries (
        ("method", c.method)
        ∷ ("password", c.password)
        ∷ ("email", c.email)
        ∷ ("limitIp", c.limit_ip)
        ∷ ("totalGB", c.total_gb)
        ∷ ("expiryTime", c.expiry_time)
        ∷ ("enable", c.enable)
        ∷ ("tgId", c.tg_id)
        ∷ ("subId", c.sub_id)
        ∷ ("comment", c.comment)
        ∷ ("reset", c.reset)
        ∷ ("created_at", c.created_at)
        ∷ ("updated_at", c.updated_at)
        ∷ [])))

-- Every field holds a value that JSON can write; the dates may be `undefined`.
pub record IsJson (c : Shadowsocks) : Type 0 where
  pub method : is_json c.method ≡ true
  pub password : is_json c.password ≡ true
  pub email : is_json c.email ≡ true
  pub limit_ip : is_json c.limit_ip ≡ true
  pub total_gb : is_json c.total_gb ≡ true
  pub expiry_time : is_json c.expiry_time ≡ true
  pub enable : is_json c.enable ≡ true
  pub tg_id : is_json c.tg_id ≡ true
  pub sub_id : is_json c.sub_id ≡ true
  pub comment : is_json c.comment ≡ true
  pub reset : is_json c.reset ≡ true
  pub created_at : is_optional c.created_at ≡ true
  pub updated_at : is_optional c.updated_at ≡ true

abbrev pub kept : Shadowsocks → Shadowsocks
kept c = c

-- A Shadowsocks client comes back from JSON as it was, whatever the random choices.
pub from_json-to_json :
    (random : Random) (c : Shadowsocks) → IsJson c → ReadsBack to_json (from_json random) kept c
unfolding from_json to_json
from_json-to_json random c h = (
  _,
  refl,
  refl,
  rw (open_json-erase _ _ refl) (
      simp (
        default-erase, optional-erase, h.method, h.password, h.email, h.limit_ip, h.total_gb,
        h.expiry_time, h.enable, h.tg_id, h.sub_id, h.comment, h.reset, h.created_at, h.updated_at,
      )),
)
