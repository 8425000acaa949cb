-- ===== src/Outbound/Settings/Noise.antt =====
-- `Outbound.FreedomSettings.Noise` (web/assets/js/model/outbound.js).
use ax_ui.Common.{◌≡◌, refl, true, [], ◌∷◌, Result, ok, ◌>>=◌}
use ax_ui.Js.{Value, str, obj, entries, default}
use ax_ui.Js.Json.{erase, is_json, default-erase}
use ax_ui.Js.Lookup.{open_json, open_json-erase}

pub record Noise : Type 0 where
  pub type : Value
  pub packet : Value
  pub delay : Value
  pub apply_to : Value

-- The constructor with no argument.
abbrev pub new : Noise
new = record { type = str "rand"; packet = str "10-20"; delay = str "10-16"; apply_to = str "ip" }

unfoldable pub from_json : Value → Result Noise
from_json json = do
  at ← open_json json
  ok (record {
    type = default new.type (at "type");
    packet = default new.packet (at "packet");
    delay = default new.delay (at "delay");
    apply_to = default new.apply_to (at "applyTo");
  })

unfoldable pub to_json : Noise → Value
to_json s = obj (
    entries
      (("type", s.type) ∷ ("packet", s.packet) ∷ ("delay", s.delay) ∷ ("applyTo", s.apply_to) ∷ []))

-- Every field holds a value that JSON can write.
pub record IsJson (s : Noise) : Type 0 where
  pub type : is_json s.type ≡ true
  pub packet : is_json s.packet ≡ true
  pub delay : is_json s.delay ≡ true
  pub apply_to : is_json s.apply_to ≡ true

-- `fromJson` gives back the noise options that `toJson` and JSON wrote, if JSON can write each field.
pub from_json-to_json : (s : Noise) → IsJson s → from_json (erase (to_json s)) ≡ ok s
unfolding from_json to_json
from_json-to_json s h =
    rw (open_json-erase _ _ refl) (simp (default-erase, h.type, h.packet, h.delay, h.apply_to))
