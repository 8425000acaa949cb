-- ===== src/Inbound/Clients/Nativewg.antt =====
-- `Inbound.NativewgSettings.WgPeer` (web/assets/js/model/inbound.js). The values that the constructor draws at random are
-- an argument.
use ax_ui.Common.{◌≡◌, refl, true, [], ◌∷◌, Result, ok, ◌>>=◌}
use ax_ui.Js.{Value, bool, nat, str, obj, entries, default, or_value, truthy}
use ax_ui.Js.Json.{is_json, default-is_json, erase-is_json}
use ax_ui.Js.Lookup.{open_json, open_json-erase}
use ax_ui.Js.Arrays.{ReadsBack}

-- One outcome of the random choices.
pub record Random : Type 0 where
  pub id : Value
  pub email : Value

pub record WgPeer : Type 0 where
  pub id : Value
  pub email : Value
  pub enable : Value
  pub comment : Value
  pub total_gb : Value
  pub expiry_time : Value
  pub reset : Value
  pub sub_id : Value
  pub tg_id : Value
  pub limit_ip : Value
  pub wg_id : Value
  pub created_at : Value
  pub updated_at : Value

-- The constructor with no argument.
abbrev pub new : Random → WgPeer
new random = record {
  id = random.id;
  email = random.email;
  enable = bool true;
  comment = str "";
  total_gb = nat 0;
  expiry_time = nat 0;
  reset = nat 0;
  sub_id = str "";
  tg_id = nat 0;
  limit_ip = nat 0;
  wg_id = nat 0;
  created_at = nat 0;
  updated_at = nat 0;
}

unfoldable pub from_json : Random → Value → Result WgPeer
from_json random json = do
  at ← open_json json
  ok (record {
    id = or_value (at "id") (random.id);
    email = or_value (at "email") (str "");
    enable = default (bool true) (at "enable");
    comment = or_value (at "comment") (str "");
    total_gb = or_value (at "totalGB") (nat 0);
    expiry_time = or_value (at "expiryTime") (nat 0);
    reset = or_value (at "reset") (nat 0);
    sub_id = or_value (at "subId") (str "");
    tg_id = or_value (at "tgId") (nat 0);
    limit_ip = or_value (at "limitIp") (nat 0);
    wg_id = or_value (at "_wgId") (nat 0);
    created_at = or_value (at "created_at") (nat 0);
    updated_at = or_value (at "updated_at") (nat 0);
  })

unfoldable pub to_json : WgPeer → Result Value
to_json c = ok (
    obj (
      entries (
        ("id", c.id)
        ∷ ("email", c.email)
        ∷ ("enable", c.enable)
        ∷ ("comment", c.comment)
        ∷ ("totalGB", c.total_gb)
        ∷ ("expiryTime", c.expiry_time)
        ∷ ("reset", c.reset)
        ∷ ("subId", c.sub_id)
        ∷ ("tgId", c.tg_id)
        ∷ ("limitIp", c.limit_ip)
        ∷ ("_wgId", c.wg_id)
        ∷ ("created_at", c.created_at)
        ∷ ("updated_at", c.updated_at)
        ∷ [])))

-- Every field holds a value that JSON can write, and the id is not empty.
pub record IsJson (c : WgPeer) : Type 0 where
  pub id : is_json c.id ≡ true
  pub email : is_json c.email ≡ true
  pub enable : is_json c.enable ≡ true
  pub comment : is_json c.comment ≡ true
  pub total_gb : is_json c.total_gb ≡ true
  pub expiry_time : is_json c.expiry_time ≡ true
  pub reset : is_json c.reset ≡ true
  pub sub_id : is_json c.sub_id ≡ true
  pub tg_id : is_json c.tg_id ≡ true
  pub limit_ip : is_json c.limit_ip ≡ true
  pub wg_id : is_json c.wg_id ≡ true
  pub created_at : is_json c.created_at ≡ true
  pub updated_at : is_json c.updated_at ≡ true
  pub has_id : truthy c.id ≡ true

-- What is kept: a falsy value becomes the default of its field.
abbrev pub kept : WgPeer → WgPeer
kept c = record c {
  email = or_value c.email (str "");
  comment = or_value c.comment (str "");
  total_gb = or_value c.total_gb (nat 0);
  expiry_time = or_value c.expiry_time (nat 0);
  reset = or_value c.reset (nat 0);
  sub_id = or_value c.sub_id (str "");
  tg_id = or_value c.tg_id (nat 0);
  limit_ip = or_value c.limit_ip (nat 0);
  wg_id = or_value c.wg_id (nat 0);
  created_at = or_value c.created_at (nat 0);
  updated_at = or_value c.updated_at (nat 0);
}

or_value-truthy : (v d : Value) → truthy v ≡ true → or_value v d ≡ v
or_value-truthy v d h = rw h

-- A native WireGuard peer comes back from JSON with a default for each falsy value, whatever the random choices.
pub from_json-to_json :
    (random : Random) (c : WgPeer) → IsJson c → ReadsBack to_json (from_json random) kept c
unfolding from_json to_json
from_json-to_json random c h = (
  _,
  refl,
  refl,
  rw (open_json-erase _ _ refl) (
      simp (
        erase-is_json, default-is_json, h.id, h.email, h.enable, h.comment, h.total_gb,
        h.expiry_time, h.reset, h.sub_id, h.tg_id, h.limit_ip, h.wg_id, h.created_at, h.updated_at,
        h.has_id,
      )),
)
