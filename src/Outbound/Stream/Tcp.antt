-- ===== src/Outbound/Stream/Tcp.antt =====
-- `TcpStreamSettings` (web/assets/js/model/outbound.js). The host and the path are texts, with commas
-- between several.
use ax_ui.Common.{
  ◌≡◌, refl, ap, ◌∙◌, true, not, ◌&&◌, String, [], ◌∷◌, Result, ok, type_error, ◌>>=◌,
  if◌then◌else◌, Bool-cases, inl, inr, ◌==◌, eq_iff, arith,
}
use ax_ui.Js.{
  undefined, null, Value, str, arr, obj, nil, cons, strings, entries, default, reader, truthy,
  equals_text, equals_loose, is_string, join_text,
}
use ax_ui.Js.Json.{erase, is_json, default-is_json, erase-is_json}
use ax_ui.Js.Lookup.{
  open_json, open_json-erase, open_json-undefined, reader-erase, erase-undefined, truthy-erase_obj,
}
use ax_ui.Js.Elements.{erase-strings}
use ax_ui.Js.Text.{split, join-split}
use ax_ui.Js.Operators.{comma, join_commas}
use ax_ui.Js.Part.{Part}
use ax_ui.ObjectUtil.{is_empty}

pub record Tcp : Type 0 where
  pub type : Value
  pub host : Value
  pub path : Value

-- The constructor with no argument.
abbrev pub new : Tcp
new = record { type = str "none"; host = undefined; path = undefined }

-- `header.request.headers.Host.join(',')` and `header.request.path.join(',')`.
abbrev http_header : Value → Value → Result Tcp
http_header type request = do
  in_request ← reader request
  in_headers ← reader (in_request "headers")
  host ← join_commas (in_headers "Host")
  path ← join_commas (in_request "path")
  ok (record { type = default new.type type; host = host; path = path })

abbrev from_parts : Value → Value → Result Tcp
from_parts type request =
    if equals_loose type "http" && truthy request
    then http_header type request
    else ok (record { type = default new.type type; host = str ""; path = str "" })

abbrev from_header : Value → Result Tcp
from_header header =
    if not (truthy header)
    then ok new
    else (do at ← reader header; from_parts (at "type") (at "request"))

unfoldable pub from_json : Value → Result Tcp
from_json json = do at ← open_json json; from_header (at "header")

-- `isEmpty(v) ? empty : v.split(',')`; only a text has `split`.
unfoldable pub split_or : Value → Value → Result Value
split_or empty undefined = ok empty
split_or empty null = ok empty
split_or empty (str s) = ok (if s == "" then empty else arr (strings (split comma s)))
split_or empty v = type_error

abbrev request_object : Value → Value → Value
request_object host path =
    obj (entries (("headers", obj (entries (("Host", host) ∷ []))) ∷ ("path", path) ∷ []))

abbrev object : Value → Value → Value
object type request =
    obj (entries (("header", obj (entries (("type", type) ∷ ("request", request) ∷ []))) ∷ []))

unfoldable pub to_json : Tcp → Result Value
to_json s =
    if equals_text s.type "http"
    then (do
      host ← split_or (arr nil) s.host
      path ← split_or (arr (cons (str "/") nil)) s.path
      ok (object s.type (request_object host path)))
    else ok (object s.type undefined)

-- The type is a value that JSON can write; for HTTP the host and the path are texts.
pub record IsJson (s : Tcp) : Type 0 where
  pub type : is_json s.type ≡ true
  pub host : equals_text s.type "http" ≡ true → is_string s.host ≡ true
  pub path : equals_text s.type "http" ≡ true → is_string s.path ≡ true

-- `/` for an empty path.
abbrev path_or_root : Value → Value
path_or_root v = if is_empty v then str "/" else v

-- What is kept: the host and the path for HTTP, with `/` for no path, and nothing of them elsewhere.
abbrev pub kept : Tcp → Tcp
kept s =
    if equals_text s.type "http"
    then record s { path = path_or_root s.path }
    else record s { host = str ""; path = str "" }

-- A text that is split, written and joined is the text, or what stands for an empty one.
split_or_back :
    (empty : Value) (t s : String)
    → join_commas (erase empty) ≡ ok (str t)
    → (w : Value) × (split_or empty (str s) ≡ ok w)
      × (join_commas (erase w) ≡ ok (str (if s == "" then t else s)))
unfolding split_or
split_or_back empty t s h = elim (Bool-cases (s == "")) [
  | inl y ↦ (empty, rw y, rw y h)
  | inr n ↦ (
    arr (strings (split comma s)),
    rw n,
    rw n (rw (erase-strings (split comma s)) (ap (λ l. ok (str l)) (join-split comma s))),
  )
]

text_of : (v : Value) → is_string v ≡ true → (s : String) × (v ≡ str s)
text_of (str s) h = (s, refl)
text_of _ h = cc

read_http :
    (host path h p : Value)
    → join_commas (erase host) ≡ ok h
    → join_commas (erase path) ≡ ok p
    → from_json (erase (object (str "http") (request_object host path)))
      ≡ ok (record { type = str "http"; host = h; path = p })
unfolding from_json is_json
read_http host path h p eh ep = rw (open_json-erase _ _ refl) (
    rw
      (truthy-erase_obj
        (entries (("type", str "http") ∷ ("request", request_object host path) ∷ [])))
      (rw (reader-erase _ _ refl) (
        rw
          (
            erase-is_json (str "http") refl,
            truthy-erase_obj
                (entries (("headers", obj (entries (("Host", host) ∷ []))) ∷ ("path", path) ∷ [])),
          )
          (rw (reader-erase _ _ refl) (rw (reader-erase _ _ refl) (rw (eh, ep)))))))

read_other :
    (type : Value)
    → is_json type ≡ true
    → from_json (erase (object type undefined))
      ≡ ok (record { type = type; host = str ""; path = str "" })
unfolding from_json
read_other type j = rw (open_json-erase _ _ refl) (
    rw (truthy-erase_obj (entries (("type", type) ∷ ("request", undefined) ∷ []))) (
      rw (reader-erase _ _ refl) (
        rw (erase-undefined, erase-is_json type j)
          (ground (arith, default-is_json (str "none") type j)))))

http_text : (v : Value) → equals_text v "http" ≡ true → v ≡ str "http"
http_text (str s) h = ap str ((eq_iff s "http").0 h)
http_text _ h = cc

kept_http :
    (s : Tcp) (host path : String)
    → equals_text s.type "http" ≡ true
    → s.host ≡ str host
    → s.path ≡ str path
    → record {
      type = str "http";
      host = str (if host == "" then "" else host);
      path = str (if path == "" then "/" else path);
    }
      ≡ kept s
kept_http s host path y eh ep = ground (arith, http_text s.type y, eq_iff host "")

-- `fromJson` gives back the TCP settings that `toJson` and JSON wrote, with `/` for no path, and
-- without the host and the path where the type is not `http`.
pub from_json-to_json :
    (s : Tcp) → IsJson s → (v : Value) × (to_json s ≡ ok v) × (from_json (erase v) ≡ ok (kept s))
unfolding to_json
from_json-to_json s h = elim (Bool-cases (equals_text s.type "http")) [
  | inl y ↦
      let (host, eh) = text_of s.host (h.host y) in
      let (path, ep) = text_of s.path (h.path y) in
      let (v, wv, rv) = split_or_back (arr nil) "" host (unfold erase join_text in refl) in
      let (w, ww, rww) =
        split_or_back (arr (cons (str "/") nil)) "/" path (unfold erase join_text in refl) in
      (
        object s.type (request_object v w),
        rw y (rw (eh, ep) (rw (wv, ww))),
        rw (http_text s.type y) (read_http v w _ _ rv rww) ∙ ap ok (kept_http s host path y eh ep),
      )
  | inr n ↦ (object s.type undefined, rw n, rw n (read_other s.type h.type))
]

-- With no value at all `fromJson` gives the default TCP settings.
pub from_json-undefined : from_json undefined ≡ ok new
unfolding from_json
from_json-undefined = rw (open_json-undefined _) refl

abbrev pub part : Part Tcp
part = record {
  new = new;
  read = from_json;
  write = to_json;
  IsJson = IsJson;
  kept = kept;
  back = from_json-to_json;
  from_undefined = from_json-undefined;
}
