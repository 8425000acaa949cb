-- ===== src/Outbound/ParamLink/Streams.antt =====
-- The transport and the security of a link with parameters, written and read
-- (web/assets/js/model/inbound.js and outbound.js).

use ax_ui.Common.{
  true, Result, ◌++◌, ◌≡◌, refl, ap, sym, ◌∙◌, false, ◌++◌, String, ◌==◌, Option, some, ok,
  Bool-cases, inl, inr,
}
use ax_ui.Js.{Value, str, to_text}
use ax_ui.Inbound.Model.{Inbound}
use ax_ui.Inbound.VmessLink.{Fields, network_of}
use ax_ui.Inbound.VlessLink.{Security, transport_params}
use ax_ui.Outbound.Stream.Settings as Stream
use ax_ui.Outbound.ParamLink.Transport.{carries, Finds}
use ax_ui.Outbound.ParamLink.Lookup.{Sees, none_named, security_names}
use ax_ui.Js.Text.{not_empty_cons}
use ax_ui.Outbound.ParamLink.{network_read, read_transport, read_stream, remark_of}
use ax_ui.Outbound.ParamLink.Carried.{
  carried_part, linked_stream, carried_stream, carried_tag, IsShared, hash_of, text_at, name_of,
}
use ax_ui.Outbound.ParamLink.Security.{Secures}

pub remark_back :
    (protocol t : String) (port : Value)
    → str (remark_of (hash_of t) protocol port) ≡ carried_tag protocol t (to_text port)
unfolding remark_of
remark_back protocol t port = elim (Bool-cases (t == "")) [
  | inl y ↦ rw y refl
  | inr n ↦ rw n (rw (not_empty_cons "#" t) refl)
]

network_back : (n : String) → (n == "none") ≡ false → network_read n ≡ network_of (str n)
unfolding network_read
network_back n e = rw e refl

type_back : (i : Inbound) (n : String) → i.stream.network ≡ str n → to_text i.stream.network ≡ n
unfolding to_text
type_back i n e = rw e refl

stream_back :
    (lower : String → String) (i : Inbound) (k : Security) {params : Result Fields}
    (get : String → Option String)
    → IsShared i k
    → (q : Secures i k params) → get "type" ≡ some (to_text i.stream.network)
    → Sees get q.fields
    → ((t : Stream.StreamSettings)
        → read_transport get t (network_of i.stream.network)
          ≡ carried_part lower i.stream t (network_of i.stream.network))
    → read_stream get ≡ carried_stream lower i k
stream_back lower i k get h q type e read =
    let (n, en, m) = h.network in
    let net : network_read n ≡ network_of i.stream.network =
      network_back n m ∙ ap network_of (sym en) in
    rw (type, type_back i n en)
      (rw (net, sym en) (rw (e.security, q.named) (rw (read (linked_stream i k)) (q.read get _ e))))

-- The transport and the security of a link are written, and read from any link that has their parameters.
pub record Streams (lower : String → String) (i : Inbound) (k : Security) (params : Result Fields)
    (security : Fields) : Type 0 where
  pub transport : Fields
  pub written : transport_params lower i.stream (network_of i.stream.network) ≡ ok transport
  pub secured : params ≡ ok security
  pub clear : none_named security_names transport ≡ true
  pub named : text_at "security" security ≡ some (name_of k)
  pub read :
      (get : String → Option String)
      → get "type" ≡ some (to_text i.stream.network)
      → Finds get (transport ++ security)
      → Sees get security
      → read_stream get ≡ carried_stream lower i k

pub streams :
    (lower : String → String) (i : Inbound) (k : Security) {params : Result Fields}
    → IsShared i k
    → (q : Secures i k params) → Streams lower i k params q.fields
streams lower i k h q =
    let c = carries lower i (network_of i.stream.network) h.path in
    record {
      transport = c.fields;
      written = c.written;
      secured = q.written;
      clear = c.clear;
      named = q.named;
      read = λ get type f e. stream_back lower i k get h q type e (λ t. c.read q.fields get t f);
    }
