-- ===== src/Outbound/Settings/Dns.antt =====
-- `Outbound.DNSSettings` (web/assets/js/model/outbound.js).
use ax_ui.Common.{◌≡◌, refl, true, [], ◌∷◌, Result, ok, ◌>>=◌}
use ax_ui.Js.{Value, nat, str, obj, arr, nil, entries, default}
use ax_ui.Js.Json.{erase, is_json, default-erase}
use ax_ui.Js.Lookup.{open_json, open_json-erase}

pub record DnsSettings : Type 0 where
  pub network : Value
  pub address : Value
  pub port : Value
  pub non_ip_query : Value
  pub block_types : Value

-- The constructor with no argument.
abbrev pub new : DnsSettings
new = record {
  network = str "udp";
  address = str "";
  port = nat 53;
  non_ip_query = str "reject";
  block_types = arr nil;
}

unfoldable pub from_json : Value → Result DnsSettings
from_json json = do
  at ← open_json json
  ok (record {
    network = default new.network (at "network");
    address = default new.address (at "address");
    port = default new.port (at "port");
    non_ip_query = default new.non_ip_query (at "nonIPQuery");
    block_types = default new.block_types (at "blockTypes");
  })

unfoldable pub to_json : DnsSettings → Value
to_json s = obj (
    entries (
      ("network", s.network)
      ∷ ("address", s.address)
      ∷ ("port", s.port)
      ∷ ("nonIPQuery", s.non_ip_query)
      ∷ ("blockTypes", s.block_types)
      ∷ []))

-- Every field holds a value that JSON can write.
pub record IsJson (s : DnsSettings) : Type 0 where
  pub network : is_json s.network ≡ true
  pub address : is_json s.address ≡ true
  pub port : is_json s.port ≡ true
  pub non_ip_query : is_json s.non_ip_query ≡ true
  pub block_types : is_json s.block_types ≡ true

-- `fromJson` gives back the DNS settings that `toJson` and JSON wrote, if JSON can write each field.
pub from_json-to_json : (s : DnsSettings) → IsJson s → from_json (erase (to_json s)) ≡ ok s
unfolding from_json to_json
from_json-to_json s h =
    rw (open_json-erase _ _ refl)
      (simp (default-erase, h.network, h.address, h.port, h.non_ip_query, h.block_types))
