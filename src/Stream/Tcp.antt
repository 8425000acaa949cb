-- ===== src/Stream/Tcp.antt =====
-- `TcpStreamSettings` (web/assets/js/model/inbound.js).
pub mod Request
pub mod Response
use ax_ui.Common.{
  ◌≡◌, refl, true, false, List, [], ◌∷◌, Result, ok, ◌>>=◌, if◌then◌else◌, arith, Bool, Bool-cases,
  inl, inr,
}
use ax_ui.Js.{
  Value, bool, str, obj, end, entries, default, undefined, or_value, equals_text, reader,
}
use ax_ui.Js.Json.{erase, is_json, default-erase}
use ax_ui.Js.Lookup.{
  open_json, open_json-erase, erase-undefined, open_json-undefined, reader-erase, or_value-erase,
}
use Request
use Request.{TcpRequest}
use Response
use Response.{TcpResponse}

pub record Tcp : Type 0 where
  pub accept_proxy_protocol : Value
  pub type : Value
  pub request : TcpRequest
  pub response : TcpResponse

abbrev pub new : Tcp
new = record {
  accept_proxy_protocol = bool false;
  type = str "none";
  request = Request.new;
  response = Response.new;
}

-- `json.header`, or `{}` where that is falsy.
unfoldable pub from_json : Value → Result Tcp
from_json json = do
  at ← open_json json
  header ← reader (or_value (at "header") (obj end))
  request ← Request.from_json (header "request")
  response ← Response.from_json (header "response")
  ok (record {
    accept_proxy_protocol = default new.accept_proxy_protocol (at "acceptProxyProtocol");
    type = default new.type (header "type");
    request = request;
    response = response;
  })

-- The request and the response are written for the type `http` alone.
abbrev object : Tcp → Value → Value → Value
object s request response = obj (
    entries (
      ("acceptProxyProtocol", s.accept_proxy_protocol)
      ∷ (
        "header",
        obj (entries (("type", s.type) ∷ ("request", request) ∷ ("response", response) ∷ [])),
      )
      ∷ []))

unfoldable pub to_json : Tcp → Result Value
to_json s =
    if equals_text s.type "http"
    then (do
      request ← Request.to_json s.request
      response ← Response.to_json s.response
      ok (object s request response))
    else ok (object s undefined undefined)

-- Every field holds a value that JSON can write.
pub record IsJson (s : Tcp) : Type 0 where
  pub accept_proxy_protocol : is_json s.accept_proxy_protocol ≡ true
  pub type : is_json s.type ≡ true
  pub request : Request.IsJson s.request
  pub response : Response.IsJson s.response

-- What is kept of the settings: the request and the response only for the type `http`.
abbrev pub kept : Tcp → Tcp
kept s =
    if equals_text s.type "http"
    then s
    else record s { request = Request.new; response = Response.new }

read_back :
    (s : Tcp) (request response : Value) (q : TcpRequest) (r : TcpResponse)
    → IsJson s
    → Request.from_json (erase request) ≡ ok q
    → Response.from_json (erase response) ≡ ok r
    → from_json (erase (object s request response)) ≡ ok (record s { request = q; response = r })
unfolding from_json
read_back s request response q r h eq er = rw (open_json-erase _ _ refl) (
    rw (or_value-erase _ _) (
      rw (reader-erase _ _ refl)
        (rw (eq, er) (simp (default-erase, h.accept_proxy_protocol, h.type)))))

-- `fromJson` gives back the TCP settings that `toJson` and JSON wrote, with the default request and
-- response where the type is not `http`, if JSON can write each field.
pub from_json-to_json :
    (s : Tcp) → IsJson s → (v : Value) × (to_json s ≡ ok v) × (from_json (erase v) ≡ ok (kept s))
unfolding to_json
from_json-to_json s h = elim (Bool-cases (equals_text s.type "http")) [
  | inl y ↦
      let (v, e, back) = Request.from_json-to_json s.request h.request in
      let (w, f, back') = Response.from_json-to_json s.response h.response in
      (object s v w, rw (y, e, f), rw y (read_back s v w s.request s.response h back back'))
  | inr n ↦ (
    object s undefined undefined,
    rw n,
    rw n (
        read_back s undefined undefined Request.new Response.new h
          (rw erase-undefined Request.from_json-undefined)
          (rw erase-undefined Response.from_json-undefined)),
  )
]

-- With no value at all `fromJson` gives the default settings.
pub from_json-undefined : from_json undefined ≡ ok new
unfolding from_json
from_json-undefined =
    rw (open_json-undefined _) (rw (Request.from_json-undefined, Response.from_json-undefined) refl)
