-- ===== src/Outbound/VmessLink/RoundTrip.antt =====
-- The link of a VMess inbound, read as an outbound (web/assets/js/model/inbound.js and outbound.js).

use ax_ui.Common.{
  ◌≡◌, refl, ap, ◌∙◌, true, false, [], ◌∷◌, ◌++◌, String, some, ok, Bool-cases, inl, inr, arith,
}
use ax_ui.Js.{Value, undefined, str, obj, default, equals_text, is_string}
use ax_ui.Js.Json.{erase, default-erase, erase-is_json, erase_optional, default-is_json}
use ax_ui.Js.Given.{given, given_value, has_name, open_json-given}
use ax_ui.Js.Operators.{times_one}
use ax_ui.Js.Part.{when}
use ax_ui.Inbound.Model.{Inbound}
use ax_ui.Inbound.VmessLink.{
  Fields, Share, network_of, chosen_tls, alpn_text, tls_fields, gen_vmess_link,
}
use ax_ui.Outbound.Settings.Wireguard.{Calls}
use ax_ui.Outbound.Stream.Settings as Stream
use ax_ui.Outbound.Model.{create}
use ax_ui.Outbound.VmessLink.{read_transport, read_tls, read_link, from_vmess_link}
use ax_ui.Outbound.VmessLink.Carried.{
  carried_part, is_secured, plain_stream, secured, carried, TlsIsJson, IsShared,
}
use ax_ui.Outbound.VmessLink.Values.{shown_back, alpn_back, tls_text, is_json-string, number_back}
use ax_ui.Outbound.VmessLink.Transport.{link_fields, carries}

-- What is read of a property behind others.
given_value-append :
    (k : String) (xs ys : Fields)
    → has_name k xs ≡ false
    → given_value k (xs ++ ys) ≡ given_value k ys
given_value-append k [] ys h = refl
given_value-append k ((b, j, v) ∷ xs) ys h = ground (arith, given_value-append k xs ys)

-- What the reader of the link finds, but for the transport.
record Reads (i : Inbound) (a : Share) (names : Value) (at : String → Value) : Type 0 where
  ps : at "ps" ≡ erase (default (str "") a.remark)
  add : at "add" ≡ erase (default (str "") a.address)
  port : at "port" ≡ erase (default i.port a.port)
  id : at "id" ≡ erase a.client_id
  scy : at "scy" ≡ erase a.security
  net : at "net" ≡ erase i.stream.network
  tls : at "tls" ≡ erase (chosen_tls i a)
  sni : at "sni" ≡ erase (given_value "sni" (tls_fields (is_secured i a) i.stream.tls names))
  fp : at "fp" ≡ erase (given_value "fp" (tls_fields (is_secured i a) i.stream.tls names))
  alpn : at "alpn" ≡ erase (given_value "alpn" (tls_fields (is_secured i a) i.stream.tls names))

reads :
    (i : Inbound) (a : Share) (alpn : Value) (fs : Fields)
    → has_name "sni" fs ≡ false
    → has_name "fp" fs ≡ false
    → has_name "alpn" fs ≡ false
    → Reads i a alpn (λ k. erase (given_value k (link_fields i a fs alpn)))
reads i a alpn fs s f l = record {
  ps = refl;
  add = refl;
  port = refl;
  id = refl;
  scy = refl;
  net = refl;
  tls = refl;
  sni = ap erase (given_value-append "sni" fs _ s);
  fp = ap erase (given_value-append "fp" fs _ f);
  alpn = ap erase (given_value-append "alpn" fs _ l);
}

-- The reader of TLS.
tls_back :
    (i : Inbound) (a : Share)
    → is_string (chosen_tls i a) ≡ true
    → (is_secured i a ≡ true → TlsIsJson i.stream.tls)
    → (v : Value) × (when (is_secured i a) (alpn_text i.stream.tls.alpn) ≡ ok v)
      × ((at : String → Value) (s : Stream.StreamSettings)
          → Reads i a v at
          → read_tls at s ≡ ok (secured i a s))
unfolding read_tls
tls_back i a t h = elim (Bool-cases (is_secured i a)) [
  | inl y ↦
      let (ps, e, names) = (h y).alpn in
      let (v, w, r) = alpn_back ps names in
      (
        v,
        rw y (rw e w),
        λ at s k.
            rw (k.tls, k.sni, k.fp, k.alpn)
              (rw (erase-is_json (chosen_tls i a) (is_json-string (chosen_tls i a) t)) (
                rw (tls_text _ t) (
                  rw (y, e)
                    (rw (
                      r,
                      shown_back i.stream.tls.sni (h y).sni,
                      shown_back i.stream.tls.settings.fingerprint (h y).fingerprint,
                    ))))),
      )
  | inr n ↦ (
    undefined,
    rw n,
    λ at s k. rw k.tls (
        rw (erase-is_json (chosen_tls i a) (is_json-string (chosen_tls i a) t))
          (rw (tls_text _ t) (rw n))),
  )
]

-- The reader, given what it finds.
link_back :
    (calls : Calls) (lower : String → String) (i : Inbound) (a : Share) (names : Value)
    (at : String → Value)
    → IsShared lower i a
    → Reads i a names at
    → ((s : Stream.StreamSettings) → read_tls at s ≡ ok (secured i a s))
    → ((s : Stream.StreamSettings)
        → read_transport at s (network_of i.stream.network)
          ≡ carried_part lower i.stream s (network_of i.stream.network))
    → read_link calls at ≡ ok (carried lower i a)
unfolding create times_one
link_back calls lower i a names at h k tls transport =
    let (z, e) = h.port in
    let tls_json = is_json-string (chosen_tls i a) h.tls in
    rw (k.ps, k.add, k.port, k.id, k.scy, k.net, k.tls)
      (rw (erase-is_json i.stream.network h.network, erase-is_json (chosen_tls i a) tls_json)
        (rw
          (
            default-is_json (str "tcp") i.stream.network h.network,
            default-is_json (str "none") (chosen_tls i a) tls_json,
          )
          (rw
            (
              transport (plain_stream i a),
              tls (carried_part lower i.stream (plain_stream i a) (network_of i.stream.network)),
            )
            (rw
              (
                default-erase (str "") (default (str "") a.remark) h.remark,
                erase-is_json (default (str "") a.address) h.address,
              )
              (rw
                (
                  number_back calls.number (default i.port a.port) z e,
                  erase_optional a.client_id h.client_id,
                  erase_optional a.security h.security,
                )
                refl)))))

is_vmess : (i : Inbound) → i.protocol ≡ str "vmess" → equals_text i.protocol "vmess" ≡ true
is_vmess i e = rw e refl

-- A link of a VMess inbound, taken through JSON, gives an outbound of VMess with the address, the port, the
-- user, the security and the tag of the link; with the network, its path, host, service name and authority
-- and the header type of TCP; and with the server name, the protocols and the fingerprint of TLS where the
-- link has TLS, if JSON can write those values, the port is a number and the names of protocols are texts
-- without commas, the first of them not empty. For XHTTP the mode is the default, whatever it was.
pub from_vmess_link-gen_vmess_link :
    (calls : Calls) (lower : String → String) (i : Inbound) (a : Share)
    → IsShared lower i a
    → (v : Value) × (gen_vmess_link lower i a ≡ ok (some v))
      × (from_vmess_link calls (erase v) ≡ ok (carried lower i a))
unfolding gen_vmess_link from_vmess_link create times_one
from_vmess_link-gen_vmess_link calls lower i a h =
    let c = carries lower i a (network_of i.stream.network) h.transport in
    let (names, w, r) = tls_back i a h.tls h.tls_json in
    let k = reads i a names c.fields c.no_sni c.no_fp c.no_alpn in
    let fs = link_fields i a c.fields names in
    (
      obj (given fs),
      rw (is_vmess i h.protocol) (rw (c.written, w) refl),
      open_json-given fs (read_link calls) (c.distinct names)
          ∙ link_back calls lower i a names _ h k (λ s. r _ s k) (c.read names),
    )
