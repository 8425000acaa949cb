-- ===== src/Outbound/Stream/Grpc.antt =====
-- `GrpcStreamSettings` (web/assets/js/model/outbound.js).
use ax_ui.Common.{◌≡◌, refl, true, false, [], ◌∷◌, Result, ok, ◌>>=◌}
use ax_ui.Js.{undefined, Value, bool, str, obj, entries, default}
use ax_ui.Js.Json.{erase, is_json, default-erase}
use ax_ui.Js.Lookup.{open_json, open_json-erase, open_json-undefined}
use ax_ui.Js.Part.{Part}

pub record Grpc : Type 0 where
  pub service_name : Value
  pub authority : Value
  pub multi_mode : Value

-- The constructor with no argument.
abbrev pub new : Grpc
new = record { service_name = str ""; authority = str ""; multi_mode = bool false }

unfoldable pub from_json : Value → Result Grpc
from_json json = do
  at ← open_json json
  ok (record {
    service_name = default new.service_name (at "serviceName");
    authority = default new.authority (at "authority");
    multi_mode = default new.multi_mode (at "multiMode");
  })

unfoldable pub to_json : Grpc → Value
to_json s = obj (
    entries (
      ("serviceName", s.service_name)
      ∷ ("authority", s.authority)
      ∷ ("multiMode", s.multi_mode)
      ∷ []))

-- Every field holds a value that JSON can write.
pub record IsJson (s : Grpc) : Type 0 where
  pub service_name : is_json s.service_name ≡ true
  pub authority : is_json s.authority ≡ true
  pub multi_mode : is_json s.multi_mode ≡ true

-- `fromJson` gives back the gRPC settings that `toJson` and JSON wrote, if JSON can write each field.
pub from_json-to_json : (s : Grpc) → IsJson s → from_json (erase (to_json s)) ≡ ok s
unfolding from_json to_json
from_json-to_json s h =
    rw (open_json-erase _ _ refl) (simp (default-erase, h.service_name, h.authority, h.multi_mode))

-- With no value at all `fromJson` gives the default gRPC settings.
pub from_json-undefined : from_json undefined ≡ ok new
unfolding from_json
from_json-undefined = rw (open_json-undefined _) refl

abbrev pub part : Part Grpc
part = record {
  new = new;
  read = from_json;
  write = λ s. ok (to_json s);
  IsJson = IsJson;
  kept = λ s. s;
  back = λ s h. (to_json s, refl, from_json-to_json s h);
  from_undefined = from_json-undefined;
}
