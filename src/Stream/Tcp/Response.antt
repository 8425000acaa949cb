-- ===== src/Stream/Tcp/Response.antt =====
-- `TcpStreamSettings.TcpResponse` (web/assets/js/model/inbound.js).
use ax_ui.Common.{◌≡◌, refl, true, List, [], ◌∷◌, ◌++◌, String, ℕ, erase_idx, Result, ok, ◌>>=◌}
use ax_ui.Js.{Value, str, obj, entries, default, undefined}
use ax_ui.Js.Json.{erase, is_json, default-erase}
use ax_ui.Js.Lookup.{open_json, open_json-erase, open_json-undefined}
use ax_ui.Headers.{Header, header, to_headers, to_v2_headers}
use ax_ui.Headers.RoundTrip.{are_plain, to_headers-to_v2_headers}

pub record TcpResponse : Type 0 where
  pub version : Value
  pub status : Value
  pub reason : Value
  pub headers : List Header

-- The constructor's default values.
abbrev pub new : TcpResponse
new = record { version = str "1.1"; status = str "200"; reason = str "OK"; headers = [] }

-- `addHeader` and `removeHeader`.
unfoldable pub add_header : TcpResponse → String → Value → TcpResponse
add_header s name value = record s { headers = s.headers ++ header name value ∷ [] }

unfoldable pub remove_header : TcpResponse → ℕ → TcpResponse
remove_header s i = record s { headers = erase_idx s.headers i }

unfoldable pub from_json : Value → Result TcpResponse
from_json json = do
  at ← open_json json
  headers ← to_headers (at "headers")
  ok (record {
    version = default new.version (at "version");
    status = default new.status (at "status");
    reason = default new.reason (at "reason");
    headers = headers;
  })

abbrev object : TcpResponse → Value → Value
object s headers = obj (
    entries (
      ("version", s.version)
      ∷ ("status", s.status)
      ∷ ("reason", s.reason)
      ∷ ("headers", headers)
      ∷ []))

unfoldable pub to_json : TcpResponse → Result Value
to_json s = do headers ← to_v2_headers s.headers true; ok (object s headers)

-- Every field holds a value that JSON can write.
pub record IsJson (s : TcpResponse) : Type 0 where
  pub version : is_json s.version ≡ true
  pub status : is_json s.status ≡ true
  pub reason : is_json s.reason ≡ true
  pub headers : are_plain s.headers ≡ true

-- `fromJson` gives back the TcpStreamSettings.TcpResponse that `toJson` and JSON wrote, if JSON can write each field and
-- the headers have text values, non-empty and distinct names, none of them inherited.
pub from_json-to_json :
    (s : TcpResponse) → IsJson s → (v : Value) × (to_json s ≡ ok v) × (from_json (erase v) ≡ ok s)
unfolding from_json to_json
from_json-to_json s h =
    let (v, e, back) = to_headers-to_v2_headers true s.headers h.headers in
    (
      object s v,
      rw e,
      rw (open_json-erase _ _ refl)
          (rw back ((simp (default-erase, h.version, h.status, h.reason)))),
    )

-- With no value at all `fromJson` gives the default response.
pub from_json-undefined : from_json undefined ≡ ok new
unfolding from_json to_headers
from_json-undefined = rw (open_json-undefined _) refl
