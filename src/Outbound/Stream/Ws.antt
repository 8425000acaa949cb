-- ===== src/Outbound/Stream/Ws.antt =====
-- `WsStreamSettings` (web/assets/js/model/outbound.js).
use ax_ui.Common.{◌≡◌, refl, true, [], ◌∷◌, Result, ok, ◌>>=◌}
use ax_ui.Js.{undefined, Value, nat, str, obj, entries, default}
use ax_ui.Js.Json.{erase, is_json, default-erase}
use ax_ui.Js.Lookup.{open_json, open_json-erase, open_json-undefined}
use ax_ui.Js.Part.{Part}

pub record Ws : Type 0 where
  pub path : Value
  pub host : Value
  pub heartbeat_period : Value

-- The constructor with no argument.
abbrev pub new : Ws
new = record { path = str "/"; host = str ""; heartbeat_period = nat 0 }

unfoldable pub from_json : Value → Result Ws
from_json json = do
  at ← open_json json
  ok (record {
    path = default new.path (at "path");
    host = default new.host (at "host");
    heartbeat_period = default new.heartbeat_period (at "heartbeatPeriod");
  })

unfoldable pub to_json : Ws → Value
to_json s =
    obj
      (entries (("path", s.path) ∷ ("host", s.host) ∷ ("heartbeatPeriod", s.heartbeat_period) ∷ []))

-- Every field holds a value that JSON can write.
pub record IsJson (s : Ws) : Type 0 where
  pub path : is_json s.path ≡ true
  pub host : is_json s.host ≡ true
  pub heartbeat_period : is_json s.heartbeat_period ≡ true

-- `fromJson` gives back the WebSocket settings that `toJson` and JSON wrote, if JSON can write each field.
pub from_json-to_json : (s : Ws) → IsJson s → from_json (erase (to_json s)) ≡ ok s
unfolding from_json to_json
from_json-to_json s h =
    rw (open_json-erase _ _ refl) (simp (default-erase, h.path, h.host, h.heartbeat_period))

-- With no value at all `fromJson` gives the default WebSocket settings.
pub from_json-undefined : from_json undefined ≡ ok new
unfolding from_json
from_json-undefined = rw (open_json-undefined _) refl

abbrev pub part : Part Ws
part = record {
  new = new;
  read = from_json;
  write = λ s. ok (to_json s);
  IsJson = IsJson;
  kept = λ s. s;
  back = λ s h. (to_json s, refl, from_json-to_json s h);
  from_undefined = from_json-undefined;
}
