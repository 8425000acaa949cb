-- ===== src/Outbound/Stream/Reality.antt =====
-- `RealityStreamSettings` (web/assets/js/model/outbound.js).
use ax_ui.Common.{◌≡◌, refl, true, [], ◌∷◌, Result, ok, ◌>>=◌}
use ax_ui.Js.{undefined, Value, str, obj, entries, default}
use ax_ui.Js.Json.{erase, is_json, default-erase}
use ax_ui.Js.Lookup.{open_json, open_json-erase, open_json-undefined}
use ax_ui.Js.Part.{Part}

pub record Reality : Type 0 where
  pub public_key : Value
  pub fingerprint : Value
  pub server_name : Value
  pub short_id : Value
  pub spider_x : Value
  pub mldsa65_verify : Value

-- The constructor with no argument.
abbrev pub new : Reality
new = record {
  public_key = str "";
  fingerprint = str "";
  server_name = str "";
  short_id = str "";
  spider_x = str "";
  mldsa65_verify = str "";
}

unfoldable pub from_json : Value → Result Reality
from_json json = do
  at ← open_json json
  ok (record {
    public_key = default new.public_key (at "publicKey");
    fingerprint = default new.fingerprint (at "fingerprint");
    server_name = default new.server_name (at "serverName");
    short_id = default new.short_id (at "shortId");
    spider_x = default new.spider_x (at "spiderX");
    mldsa65_verify = default new.mldsa65_verify (at "mldsa65Verify");
  })

unfoldable pub to_json : Reality → Value
to_json s = obj (
    entries (
      ("publicKey", s.public_key)
      ∷ ("fingerprint", s.fingerprint)
      ∷ ("serverName", s.server_name)
      ∷ ("shortId", s.short_id)
      ∷ ("spiderX", s.spider_x)
      ∷ ("mldsa65Verify", s.mldsa65_verify)
      ∷ []))

-- Every field holds a value that JSON can write.
pub record IsJson (s : Reality) : Type 0 where
  pub public_key : is_json s.public_key ≡ true
  pub fingerprint : is_json s.fingerprint ≡ true
  pub server_name : is_json s.server_name ≡ true
  pub short_id : is_json s.short_id ≡ true
  pub spider_x : is_json s.spider_x ≡ true
  pub mldsa65_verify : is_json s.mldsa65_verify ≡ true

-- `fromJson` gives back the Reality settings that `toJson` and JSON wrote, if JSON can write each field.
pub from_json-to_json : (s : Reality) → IsJson s → from_json (erase (to_json s)) ≡ ok s
unfolding from_json to_json
from_json-to_json s h = rw (open_json-erase _ _ refl) (
    simp (
      default-erase, h.public_key, h.fingerprint, h.server_name, h.short_id, h.spider_x,
      h.mldsa65_verify,
    ))

-- With no value at all `fromJson` gives the default Reality settings.
pub from_json-undefined : from_json undefined ≡ ok new
unfolding from_json
from_json-undefined = rw (open_json-undefined _) refl

abbrev pub part : Part Reality
part = record {
  new = new;
  read = from_json;
  write = λ s. ok (to_json s);
  IsJson = IsJson;
  kept = λ s. s;
  back = λ s h. (to_json s, refl, from_json-to_json s h);
  from_undefined = from_json-undefined;
}
