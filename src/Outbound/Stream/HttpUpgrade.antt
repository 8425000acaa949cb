-- ===== src/Outbound/Stream/HttpUpgrade.antt =====
-- `HttpUpgradeStreamSettings` (web/assets/js/model/outbound.js).
use ax_ui.Common.{◌≡◌, refl, true, [], ◌∷◌, Result, ok, ◌>>=◌}
use ax_ui.Js.{undefined, Value, str, obj, entries, default}
use ax_ui.Js.Json.{erase, is_json, default-erase}
use ax_ui.Js.Lookup.{open_json, open_json-erase, open_json-undefined}
use ax_ui.Js.Part.{Part}

pub record HttpUpgrade : Type 0 where
  pub path : Value
  pub host : Value

-- The constructor with no argument.
abbrev pub new : HttpUpgrade
new = record { path = str "/"; host = str "" }

unfoldable pub from_json : Value → Result HttpUpgrade
from_json json = do
  at ← open_json json
  ok (record { path = default new.path (at "path"); host = default new.host (at "host") })

unfoldable pub to_json : HttpUpgrade → Value
to_json s = obj (entries (("path", s.path) ∷ ("host", s.host) ∷ []))

-- Every field holds a value that JSON can write.
pub record IsJson (s : HttpUpgrade) : Type 0 where
  pub path : is_json s.path ≡ true
  pub host : is_json s.host ≡ true

-- `fromJson` gives back the HTTPUpgrade settings that `toJson` and JSON wrote, if JSON can write each field.
pub from_json-to_json : (s : HttpUpgrade) → IsJson s → from_json (erase (to_json s)) ≡ ok s
unfolding from_json to_json
from_json-to_json s h = rw (open_json-erase _ _ refl) (simp (default-erase, h.path, h.host))

-- With no value at all `fromJson` gives the default HTTPUpgrade settings.
pub from_json-undefined : from_json undefined ≡ ok new
unfolding from_json
from_json-undefined = rw (open_json-undefined _) refl

abbrev pub part : Part HttpUpgrade
part = record {
  new = new;
  read = from_json;
  write = λ s. ok (to_json s);
  IsJson = IsJson;
  kept = λ s. s;
  back = λ s h. (to_json s, refl, from_json-to_json s h);
  from_undefined = from_json-undefined;
}
