-- ===== src/Outbound/Stream/Kcp.antt =====
-- `KcpStreamSettings` (web/assets/js/model/outbound.js).
use ax_ui.Common.{◌≡◌, refl, true, false, [], ◌∷◌, Result, ok, ◌>>=◌}
use ax_ui.Js.{undefined, Value, bool, nat, obj, entries, default}
use ax_ui.Js.Json.{erase, is_json, default-erase}
use ax_ui.Js.Lookup.{open_json, open_json-erase, open_json-undefined}
use ax_ui.Js.Part.{Part}

pub record Kcp : Type 0 where
  pub mtu : Value
  pub tti : Value
  pub up_cap : Value
  pub down_cap : Value
  pub congestion : Value
  pub read_buffer : Value
  pub write_buffer : Value

-- The constructor with no argument.
abbrev pub new : Kcp
new = record {
  mtu = nat 1350;
  tti = nat 20;
  up_cap = nat 5;
  down_cap = nat 20;
  congestion = bool false;
  read_buffer = nat 1;
  write_buffer = nat 1;
}

unfoldable pub from_json : Value → Result Kcp
from_json json = do
  at ← open_json json
  ok (record {
    mtu = default new.mtu (at "mtu");
    tti = default new.tti (at "tti");
    up_cap = default new.up_cap (at "uplinkCapacity");
    down_cap = default new.down_cap (at "downlinkCapacity");
    congestion = default new.congestion (at "congestion");
    read_buffer = default new.read_buffer (at "readBufferSize");
    write_buffer = default new.write_buffer (at "writeBufferSize");
  })

unfoldable pub to_json : Kcp → Value
to_json s = obj (
    entries (
      ("mtu", s.mtu)
      ∷ ("tti", s.tti)
      ∷ ("uplinkCapacity", s.up_cap)
      ∷ ("downlinkCapacity", s.down_cap)
      ∷ ("congestion", s.congestion)
      ∷ ("readBufferSize", s.read_buffer)
      ∷ ("writeBufferSize", s.write_buffer)
      ∷ []))

-- Every field holds a value that JSON can write.
pub record IsJson (s : Kcp) : Type 0 where
  pub mtu : is_json s.mtu ≡ true
  pub tti : is_json s.tti ≡ true
  pub up_cap : is_json s.up_cap ≡ true
  pub down_cap : is_json s.down_cap ≡ true
  pub congestion : is_json s.congestion ≡ true
  pub read_buffer : is_json s.read_buffer ≡ true
  pub write_buffer : is_json s.write_buffer ≡ true

-- `fromJson` gives back the mKCP settings that `toJson` and JSON wrote, if JSON can write each field.
pub from_json-to_json : (s : Kcp) → IsJson s → from_json (erase (to_json s)) ≡ ok s
unfolding from_json to_json
from_json-to_json s h = rw (open_json-erase _ _ refl) (
    simp (
      default-erase, h.mtu, h.tti, h.up_cap, h.down_cap, h.congestion, h.read_buffer,
      h.write_buffer,
    ))

-- With no value at all `fromJson` gives the default mKCP settings.
pub from_json-undefined : from_json undefined ≡ ok new
unfolding from_json
from_json-undefined = rw (open_json-undefined _) refl

abbrev pub part : Part Kcp
part = record {
  new = new;
  read = from_json;
  write = λ s. ok (to_json s);
  IsJson = IsJson;
  kept = λ s. s;
  back = λ s h. (to_json s, refl, from_json-to_json s h);
  from_undefined = from_json-undefined;
}
