-- ===== src/Stream/Tls/Settings.antt =====
-- `TlsStreamSettings.Settings` (web/assets/js/model/inbound.js).
use ax_ui.Common.{String, ◌≡◌, refl, true, false, [], ◌∷◌, Result, ok, ◌>>=◌}
use ax_ui.Js.{reader, Value, str, obj, entries, default}
use ax_ui.Js.Json.{erase, is_json, default-erase}
use ax_ui.Js.Lookup.{open_json, open_json-erase, reader-erase}
use ax_ui.ObjectUtil.{is_empty}

pub record Settings : Type 0 where
  pub fingerprint : Value
  pub ech_config_list : Value

-- The constructor's default values.
abbrev pub new : Settings
new = record { fingerprint = str "chrome"; ech_config_list = str "" }

-- The constructor, given the properties of `json`.
abbrev pub of_json : (String → Value) → Settings
of_json at = record {
  fingerprint = default new.fingerprint (at "fingerprint");
  ech_config_list = default new.ech_config_list (at "echConfigList");
}

unfoldable pub from_json : Value → Result Settings
from_json json = do at ← open_json json; ok (of_json at)

unfoldable pub to_json : Settings → Value
to_json s =
    obj (entries (("fingerprint", s.fingerprint) ∷ ("echConfigList", s.ech_config_list) ∷ []))

-- Every field holds a value that JSON can write.
pub record IsJson (s : Settings) : Type 0 where
  pub fingerprint : is_json s.fingerprint ≡ true
  pub ech_config_list : is_json s.ech_config_list ≡ true

-- `fromJson` gives back the TLS client settings that `toJson` and JSON wrote, if JSON can write each field.
pub from_json-to_json : (s : Settings) → IsJson s → from_json (erase (to_json s)) ≡ ok s
unfolding from_json to_json
from_json-to_json s h =
    rw (open_json-erase _ _ refl) (simp (default-erase, h.fingerprint, h.ech_config_list))

-- The same, where the object is opened by the code that holds it.
pub reader-to_json :
    (s : Settings) → IsJson s → (do at ← reader (erase (to_json s)); ok (of_json at)) ≡ ok s
unfolding to_json
reader-to_json s h =
    rw (reader-erase _ _ refl) (simp (default-erase, h.fingerprint, h.ech_config_list))

pub is_empty-to_json : (s : Settings) → is_empty (erase (to_json s)) ≡ false
unfolding to_json erase
is_empty-to_json s = refl
