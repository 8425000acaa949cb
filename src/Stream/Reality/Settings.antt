-- ===== src/Stream/Reality/Settings.antt =====
-- `RealityStreamSettings.Settings` (web/assets/js/model/inbound.js).
use ax_ui.Common.{String, ◌≡◌, refl, true, false, [], ◌∷◌, Result, ok, ◌>>=◌}
use ax_ui.Js.{reader, Value, str, obj, entries, default}
use ax_ui.Js.Json.{erase, is_json, default-erase}
use ax_ui.Js.Lookup.{open_json, open_json-erase, reader-erase}
use ax_ui.ObjectUtil.{is_empty}

pub record Settings : Type 0 where
  pub public_key : Value
  pub fingerprint : Value
  pub server_name : Value
  pub spider_x : Value
  pub mldsa65_verify : Value

-- The constructor's default values.
abbrev pub new : Settings
new = record {
  public_key = str "";
  fingerprint = str "chrome";
  server_name = str "";
  spider_x = str "/";
  mldsa65_verify = str "";
}

-- The constructor, given the properties of `json`.
abbrev pub of_json : (String → Value) → Settings
of_json at = record {
  public_key = default new.public_key (at "publicKey");
  fingerprint = default new.fingerprint (at "fingerprint");
  server_name = default new.server_name (at "serverName");
  spider_x = default new.spider_x (at "spiderX");
  mldsa65_verify = default new.mldsa65_verify (at "mldsa65Verify");
}

unfoldable pub from_json : Value → Result Settings
from_json json = do at ← open_json json; ok (of_json at)

unfoldable pub to_json : Settings → Value
to_json s = obj (
    entries (
      ("publicKey", s.public_key)
      ∷ ("fingerprint", s.fingerprint)
      ∷ ("serverName", s.server_name)
      ∷ ("spiderX", s.spider_x)
      ∷ ("mldsa65Verify", s.mldsa65_verify)
      ∷ []))

-- Every field holds a value that JSON can write.
pub record IsJson (s : Settings) : Type 0 where
  pub public_key : is_json s.public_key ≡ true
  pub fingerprint : is_json s.fingerprint ≡ true
  pub server_name : is_json s.server_name ≡ true
  pub spider_x : is_json s.spider_x ≡ true
  pub mldsa65_verify : is_json s.mldsa65_verify ≡ true

-- `fromJson` gives back the REALITY client settings that `toJson` and JSON wrote, if JSON can write each field.
pub from_json-to_json : (s : Settings) → IsJson s → from_json (erase (to_json s)) ≡ ok s
unfolding from_json to_json
from_json-to_json s h =
    rw (open_json-erase _ _ refl) (
      simp
        (default-erase, h.public_key, h.fingerprint, h.server_name, h.spider_x, h.mldsa65_verify))

-- The same, where the object is opened by the code that holds it.
pub reader-to_json :
    (s : Settings) → IsJson s → (do at ← reader (erase (to_json s)); ok (of_json at)) ≡ ok s
unfolding to_json
reader-to_json s h =
    rw (reader-erase _ _ refl) (
      simp
        (default-erase, h.public_key, h.fingerprint, h.server_name, h.spider_x, h.mldsa65_verify))

pub is_empty-to_json : (s : Settings) → is_empty (erase (to_json s)) ≡ false
unfolding to_json erase
is_empty-to_json s = refl
