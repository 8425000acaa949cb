-- ===== src/Outbound/Settings/Fragment.antt =====
-- `Outbound.FreedomSettings.Fragment` (web/assets/js/model/outbound.js).
use ax_ui.Common.{◌≡◌, refl, true, [], ◌∷◌, Result, ok, ◌>>=◌}
use ax_ui.Js.{Value, str, obj, entries, default}
use ax_ui.Js.Json.{erase, is_json, default-erase}
use ax_ui.Js.Lookup.{open_json, open_json-erase}

pub record Fragment : Type 0 where
  pub packets : Value
  pub length : Value
  pub interval : Value
  pub max_split : Value

-- The constructor with no argument.
abbrev pub new : Fragment
new = record { packets = str "1-3"; length = str ""; interval = str ""; max_split = str "" }

unfoldable pub from_json : Value → Result Fragment
from_json json = do
  at ← open_json json
  ok (record {
    packets = default new.packets (at "packets");
    length = default new.length (at "length");
    interval = default new.interval (at "interval");
    max_split = default new.max_split (at "maxSplit");
  })

unfoldable pub to_json : Fragment → Value
to_json s = obj (
    entries (
      ("packets", s.packets)
      ∷ ("length", s.length)
      ∷ ("interval", s.interval)
      ∷ ("maxSplit", s.max_split)
      ∷ []))

-- Every field holds a value that JSON can write.
pub record IsJson (s : Fragment) : Type 0 where
  pub packets : is_json s.packets ≡ true
  pub length : is_json s.length ≡ true
  pub interval : is_json s.interval ≡ true
  pub max_split : is_json s.max_split ≡ true

-- `fromJson` gives back the fragment options that `toJson` and JSON wrote, if JSON can write each field.
pub from_json-to_json : (s : Fragment) → IsJson s → from_json (erase (to_json s)) ≡ ok s
unfolding from_json to_json
from_json-to_json s h =
    rw (open_json-erase _ _ refl)
      (simp (default-erase, h.packets, h.length, h.interval, h.max_split))
