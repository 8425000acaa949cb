-- ===== src/Stream/HttpUpgrade.antt =====
-- `HTTPUpgradeStreamSettings` (web/assets/js/model/inbound.js).
use ax_ui.Common.{◌≡◌, refl, true, false, List, [], ◌∷◌, Result, ok, ◌>>=◌}
use ax_ui.Js.{undefined, Value, bool, str, obj, entries, default}
use ax_ui.Js.Json.{erase, is_json, default-erase}
use ax_ui.Js.Lookup.{open_json, open_json-erase, open_json-undefined}
use ax_ui.Headers.{Header, header, to_headers, to_v2_headers}
use ax_ui.Headers.RoundTrip.{are_plain, to_headers-to_v2_headers}
use ax_ui.Common.{String, ◌++◌, ℕ, erase_idx}

pub record HttpUpgrade : Type 0 where
  pub accept_proxy_protocol : Value
  pub path : Value
  pub host : Value
  pub headers : List Header

-- The constructor's default values.
abbrev pub new : HttpUpgrade
new = record { accept_proxy_protocol = bool false; path = str "/"; host = str ""; headers = [] }

-- `addHeader` and `removeHeader`.
unfoldable pub add_header : HttpUpgrade → String → Value → HttpUpgrade
add_header s name value = record s { headers = s.headers ++ header name value ∷ [] }

unfoldable pub remove_header : HttpUpgrade → ℕ → HttpUpgrade
remove_header s i = record s { headers = erase_idx s.headers i }

unfoldable pub from_json : Value → Result HttpUpgrade
from_json json = do
  at ← open_json json
  headers ← to_headers (at "headers")
  ok (record {
    accept_proxy_protocol = default new.accept_proxy_protocol (at "acceptProxyProtocol");
    path = default new.path (at "path");
    host = default new.host (at "host");
    headers = headers;
  })

-- The object that `toJson` gives, with its header object.
abbrev object : HttpUpgrade → Value → Value
object s headers = obj (
    entries (
      ("acceptProxyProtocol", s.accept_proxy_protocol)
      ∷ ("path", s.path)
      ∷ ("host", s.host)
      ∷ ("headers", headers)
      ∷ []))

unfoldable pub to_json : HttpUpgrade → Result Value
to_json s = do headers ← to_v2_headers s.headers false; ok (object s headers)

-- Every field holds a value that JSON can write.
pub record IsJson (s : HttpUpgrade) : Type 0 where
  pub accept_proxy_protocol : is_json s.accept_proxy_protocol ≡ true
  pub path : is_json s.path ≡ true
  pub host : is_json s.host ≡ true
  pub headers : are_plain s.headers ≡ true

-- `fromJson` gives back the HTTPUpgrade settings that `toJson` and JSON wrote, if JSON can write each field and
-- the headers have text values, non-empty and distinct names, none of them inherited.
pub from_json-to_json :
    (s : HttpUpgrade) → IsJson s → (v : Value) × (to_json s ≡ ok v) × (from_json (erase v) ≡ ok s)
unfolding from_json to_json
from_json-to_json s h =
    let (v, e, back) = to_headers-to_v2_headers false s.headers h.headers in
    (
      object s v,
      rw e,
      rw (open_json-erase _ _ refl)
          (rw back (simp (default-erase, h.accept_proxy_protocol, h.path, h.host))),
    )

-- With no value at all `fromJson` gives the default settings.
pub from_json-undefined : from_json undefined ≡ ok new
unfolding from_json to_headers
from_json-undefined = rw (open_json-undefined _) refl
