-- ===== src/Outbound/Mux.antt =====
-- `Mux` (web/assets/js/model/outbound.js).
use ax_ui.Common.{
  ◌≡◌, refl, true, false, [], ◌∷◌, Result, ok, ◌>>=◌, Option, none, some, if◌then◌else◌,
}
use ax_ui.Js.{undefined, Value, bool, nat, str, obj, end, entries, default, reader}
use ax_ui.Js.Json.{erase, is_json, default-erase}
use ax_ui.Js.Lookup.{default-erase_obj, reader-erase}
use ax_ui.Stream.Sockopt.{has_no_keys, has_no_keys-erase}

pub record Mux : Type 0 where
  pub enabled : Value
  pub concurrency : Value
  pub xudp_concurrency : Value
  pub xudp_proxy_udp443 : Value

-- The constructor with no argument.
abbrev pub new : Mux
new = record {
  enabled = bool false;
  concurrency = nat 8;
  xudp_concurrency = nat 16;
  xudp_proxy_udp443 = str "reject";
}

-- `none` stands for `undefined`, the result for an object with no property.
unfoldable pub from_json : Value → Result (Option Mux)
from_json json = do
  empty ← has_no_keys (default (obj end) json)
  at ← reader (default (obj end) json)
  ok (
      if empty
      then none
      else some (record {
        enabled = default new.enabled (at "enabled");
        concurrency = default new.concurrency (at "concurrency");
        xudp_concurrency = default new.xudp_concurrency (at "xudpConcurrency");
        xudp_proxy_udp443 = default new.xudp_proxy_udp443 (at "xudpProxyUDP443");
      }))

unfoldable pub to_json : Mux → Value
to_json s = obj (
    entries (
      ("enabled", s.enabled)
      ∷ ("concurrency", s.concurrency)
      ∷ ("xudpConcurrency", s.xudp_concurrency)
      ∷ ("xudpProxyUDP443", s.xudp_proxy_udp443)
      ∷ []))

-- Every field holds a value that JSON can write.
pub record IsJson (s : Mux) : Type 0 where
  pub enabled : is_json s.enabled ≡ true
  pub concurrency : is_json s.concurrency ≡ true
  pub xudp_concurrency : is_json s.xudp_concurrency ≡ true
  pub xudp_proxy_udp443 : is_json s.xudp_proxy_udp443 ≡ true

-- `fromJson` gives back the multiplexing that `toJson` and JSON wrote, if JSON can write each field.
pub from_json-to_json : (s : Mux) → IsJson s → from_json (erase (to_json s)) ≡ ok (some s)
unfolding from_json to_json
from_json-to_json s h = rw (default-erase_obj _ _) (
    rw (has_no_keys-erase _ _ _ h.enabled) (
      rw (reader-erase _ _ refl)
        (simp (default-erase, h.enabled, h.concurrency, h.xudp_concurrency, h.xudp_proxy_udp443))))

-- With no value at all there is no multiplexing to read.
pub from_json-undefined : from_json undefined ≡ ok none
unfolding from_json
from_json-undefined = refl
