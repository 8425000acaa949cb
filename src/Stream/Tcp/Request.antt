-- ===== src/Stream/Tcp/Request.antt =====
-- `TcpStreamSettings.TcpRequest` (web/assets/js/model/inbound.js).
use ax_ui.Common.{
  ◌≡◌, refl, true, false, List, [], ◌∷◌, ◌++◌, String, ℕ, erase_idx, Result, ok, type_error, ◌>>=◌,
  if◌then◌else◌, not, ◌&&◌, arith, Bool,
}
use ax_ui.Js.{Value, str, arr, obj, nil, cons, entries, default, null, undefined, elements, of_list}
use ax_ui.Js.Json.{erase, is_json, default-erase}
use ax_ui.Js.Lookup.{open_json, open_json-erase, open_json-undefined}
use ax_ui.ObjectUtil.{clone, has_length_zero}
use ax_ui.Headers.{Header, header, to_headers, to_v2_headers}
use ax_ui.Headers.RoundTrip.{are_plain, to_headers-to_v2_headers}

pub record TcpRequest : Type 0 where
  pub version : Value
  pub method : Value
  pub path : Value
  pub headers : List Header

-- The constructor's default values.
abbrev pub new : TcpRequest
new = record {
  version = str "1.1";
  method = str "GET";
  path = arr (cons (str "/") nil);
  headers = [];
}

-- `path.length === 0 ? ['/'] : path`
abbrev path_or_root : Value → Result Value
path_or_root null = type_error
path_or_root undefined = type_error
path_or_root v = ok (if has_length_zero v then new.path else v)

-- `addPath` and `removePath`; only an array has `push` and `splice`.
abbrev push_path : Value → Value → Result Value
push_path (arr vs) v = ok (arr (of_list (elements vs ++ v ∷ [])))
push_path _ v = type_error

abbrev splice_path : Value → ℕ → Result Value
splice_path (arr vs) i = ok (arr (of_list (erase_idx (elements vs) i)))
splice_path _ i = type_error

unfoldable pub add_path : TcpRequest → Value → Result TcpRequest
add_path s v = do path ← push_path s.path v; ok (record s { path = path })

unfoldable pub remove_path : TcpRequest → ℕ → Result TcpRequest
remove_path s i = do path ← splice_path s.path i; ok (record s { path = path })

-- `addHeader` and `removeHeader`.
unfoldable pub add_header : TcpRequest → String → Value → TcpRequest
add_header s name value = record s { headers = s.headers ++ header name value ∷ [] }

unfoldable pub remove_header : TcpRequest → ℕ → TcpRequest
remove_header s i = record s { headers = erase_idx s.headers i }

unfoldable pub from_json : Value → Result TcpRequest
from_json json = do
  at ← open_json json
  headers ← to_headers (at "headers")
  path ← path_or_root (default new.path (at "path"))
  ok (record {
    version = default new.version (at "version");
    method = default new.method (at "method");
    path = path;
    headers = headers;
  })

abbrev object : TcpRequest → Value → Value
object s headers = obj (
    entries (
      ("version", s.version)
      ∷ ("method", s.method)
      ∷ ("path", clone s.path)
      ∷ ("headers", headers)
      ∷ []))

unfoldable pub to_json : TcpRequest → Result Value
to_json s = do headers ← to_v2_headers s.headers true; ok (object s headers)

-- A non-empty array of texts.
abbrev pub is_path : Value → Bool
is_path (arr vs) = not (has_length_zero (arr vs)) && is_json (arr vs)
is_path _ = false

clone-is_path : (v : Value) → is_path v ≡ true → clone v ≡ v
unfolding clone
clone-is_path (arr vs) h = refl
clone-is_path _ h = cc

path_or_root-erase : (d v : Value) → is_path v ≡ true → path_or_root (default d (erase v)) ≡ ok v
path_or_root-erase d (arr vs) h = rw (default-erase d (arr vs) (ground arith)) (ground arith)
path_or_root-erase d _ h = cc

-- Every field holds a value that JSON can write.
pub record IsJson (s : TcpRequest) : Type 0 where
  pub version : is_json s.version ≡ true
  pub method : is_json s.method ≡ true
  pub path : is_path s.path ≡ true
  pub headers : are_plain s.headers ≡ true

-- `fromJson` gives back the TcpStreamSettings.TcpRequest that `toJson` and JSON wrote, if JSON can write each field, the path is a non-empty array and
-- the headers have text values, non-empty and distinct names, none of them inherited.
pub from_json-to_json :
    (s : TcpRequest) → IsJson s → (v : Value) × (to_json s ≡ ok v) × (from_json (erase v) ≡ ok s)
unfolding from_json to_json
from_json-to_json s h =
    let (v, e, back) = to_headers-to_v2_headers true s.headers h.headers in
    (
      object s v,
      rw e,
      rw (open_json-erase _ _ refl) (
          rw (clone-is_path _ h.path, back)
            (rw (path_or_root-erase _ _ h.path) (simp (default-erase, h.version, h.method)))),
    )

-- With no value at all `fromJson` gives the default request.
pub from_json-undefined : from_json undefined ≡ ok new
unfolding from_json to_headers
from_json-undefined = rw (open_json-undefined _) refl
