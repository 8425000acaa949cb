-- ===== src/Outbound/Stream/Tls.antt =====
-- `TlsStreamSettings` (web/assets/js/model/outbound.js).
use ax_ui.Common.{◌≡◌, refl, true, [], ◌∷◌, Result, ok, ◌>>=◌}
use ax_ui.Js.{undefined, Value, str, obj, arr, nil, entries, default}
use ax_ui.Js.Json.{erase, is_json, default-erase}
use ax_ui.Js.Lookup.{open_json, open_json-erase, open_json-undefined}
use ax_ui.Js.Part.{Part}

pub record Tls : Type 0 where
  pub server_name : Value
  pub alpn : Value
  pub fingerprint : Value
  pub ech_config_list : Value
  pub verify_peer_cert_by_name : Value
  pub pinned_peer_cert_sha256 : Value

-- The constructor with no argument.
abbrev pub new : Tls
new = record {
  server_name = str "";
  alpn = arr nil;
  fingerprint = str "";
  ech_config_list = str "";
  verify_peer_cert_by_name = str "";
  pinned_peer_cert_sha256 = str "";
}

unfoldable pub from_json : Value → Result Tls
from_json json = do
  at ← open_json json
  ok (record {
    server_name = default new.server_name (at "serverName");
    alpn = default new.alpn (at "alpn");
    fingerprint = default new.fingerprint (at "fingerprint");
    ech_config_list = default new.ech_config_list (at "echConfigList");
    verify_peer_cert_by_name = default new.verify_peer_cert_by_name (at "verifyPeerCertByName");
    pinned_peer_cert_sha256 = default new.pinned_peer_cert_sha256 (at "pinnedPeerCertSha256");
  })

unfoldable pub to_json : Tls → Value
to_json s = obj (
    entries (
      ("serverName", s.server_name)
      ∷ ("alpn", s.alpn)
      ∷ ("fingerprint", s.fingerprint)
      ∷ ("echConfigList", s.ech_config_list)
      ∷ ("verifyPeerCertByName", s.verify_peer_cert_by_name)
      ∷ ("pinnedPeerCertSha256", s.pinned_peer_cert_sha256)
      ∷ []))

-- Every field holds a value that JSON can write.
pub record IsJson (s : Tls) : Type 0 where
  pub server_name : is_json s.server_name ≡ true
  pub alpn : is_json s.alpn ≡ true
  pub fingerprint : is_json s.fingerprint ≡ true
  pub ech_config_list : is_json s.ech_config_list ≡ true
  pub verify_peer_cert_by_name : is_json s.verify_peer_cert_by_name ≡ true
  pub pinned_peer_cert_sha256 : is_json s.pinned_peer_cert_sha256 ≡ true

-- `fromJson` gives back the TLS settings that `toJson` and JSON wrote, if JSON can write each field.
pub from_json-to_json : (s : Tls) → IsJson s → from_json (erase (to_json s)) ≡ ok s
unfolding from_json to_json
from_json-to_json s h = rw (open_json-erase _ _ refl) (
    simp (
      default-erase, h.server_name, h.alpn, h.fingerprint, h.ech_config_list,
      h.verify_peer_cert_by_name, h.pinned_peer_cert_sha256,
    ))

-- With no value at all `fromJson` gives the default TLS settings.
pub from_json-undefined : from_json undefined ≡ ok new
unfolding from_json
from_json-undefined = rw (open_json-undefined _) refl

abbrev pub part : Part Tls
part = record {
  new = new;
  read = from_json;
  write = λ s. ok (to_json s);
  IsJson = IsJson;
  kept = λ s. s;
  back = λ s h. (to_json s, refl, from_json-to_json s h);
  from_undefined = from_json-undefined;
}
