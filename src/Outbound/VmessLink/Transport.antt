-- ===== src/Outbound/VmessLink/Transport.antt =====
-- The transport in a VMess link, written and read (web/assets/js/model/inbound.js and outbound.js).

use ax_ui.Common.{◌≡◌, refl, true, false, ◌&&◌, [], ◌∷◌, ◌++◌, String, ok}
use ax_ui.Js.{Value, str, truthy, equals_text}
use ax_ui.Js.Json.{erase, default-erase}
use ax_ui.Js.Lookup.{erase-undefined}
use ax_ui.Js.Given.{given_value, has_name, distinct_names}
use ax_ui.Inbound.Model.{Inbound}
use ax_ui.Inbound.VmessLink.{
  Fields, Share, Network, tcp, kcp, ws, grpc, httpupgrade, xhttp, other, host_of, get_header,
  transport_fields, tls_fields, base_fields,
}
use ax_ui.Outbound.Stream.Settings as Stream
use ax_ui.Outbound.VmessLink.{read_transport}
use ax_ui.Outbound.VmessLink.Carried.{carried_part, is_secured, TransportIsJson}
use ax_ui.Outbound.VmessLink.Values.{multi_back, nullish_back, path_back}

abbrev pub link_fields : Inbound → Share → Fields → Value → Fields
link_fields i a transport alpn =
    base_fields i a ++ transport ++ tls_fields (is_secured i a) i.stream.tls alpn

-- What each network needs: its properties are written, they have names of their own, and they are read.
pub record Carries (lower : String → String) (i : Inbound) (a : Share) (n : Network) : Type 0 where
  pub fields : Fields
  pub written : transport_fields lower i.stream n ≡ ok fields
  pub no_sni : has_name "sni" fields ≡ false
  pub no_fp : has_name "fp" fields ≡ false
  pub no_alpn : has_name "alpn" fields ≡ false
  pub distinct : (names : Value) → distinct_names (link_fields i a fields names) ≡ true
  pub read :
      (names : Value) (s : Stream.StreamSettings)
      → read_transport (λ k. erase (given_value k (link_fields i a fields names))) s n
        ≡ carried_part lower i.stream s n

pub carries :
    (lower : String → String) (i : Inbound) (a : Share) (n : Network)
    → TransportIsJson lower i.stream n
    → Carries lower i a n
carries lower i a kcp h = record {
  fields = [];
  written = refl;
  no_sni = refl;
  no_fp = refl;
  no_alpn = refl;
  distinct = λ names. refl;
  read = λ names s. refl;
}
carries lower i a ws (p, q) = record {
  fields = _;
  written = refl;
  no_sni = refl;
  no_fp = refl;
  no_alpn = refl;
  distinct = λ names. refl;
  read = λ names s.
      rw
        (
          default-erase (str "/") (i.stream.ws.path) p,
          default-erase (str "") (host_of lower i.stream.ws.host i.stream.ws.headers) q,
        )
        refl;
}
carries lower i a grpc (p, q) = record {
  fields = _;
  written = refl;
  no_sni = refl;
  no_fp = refl;
  no_alpn = refl;
  distinct = λ names. refl;
  read = λ names s.
      rw
        (
          default-erase (str "") (i.stream.grpc.service_name) p,
          default-erase (str "") (i.stream.grpc.authority) q,
          multi_back (truthy i.stream.grpc.multi_mode),
        )
        refl;
}
carries lower i a httpupgrade (p, q) = record {
  fields = _;
  written = refl;
  no_sni = refl;
  no_fp = refl;
  no_alpn = refl;
  distinct = λ names. refl;
  read = λ names s.
      rw
        (
          default-erase (str "/") (i.stream.httpupgrade.path) p,
          default-erase (str "")
              (host_of lower i.stream.httpupgrade.host i.stream.httpupgrade.headers) q,
        )
        refl;
}
carries lower i a xhttp (p, q) = record {
  fields = _;
  written = refl;
  no_sni = refl;
  no_fp = refl;
  no_alpn = refl;
  distinct = λ names. refl;
  read = λ names s.
      rw
        (
          default-erase (str "/") (i.stream.xhttp.path) p,
          default-erase (str "") (host_of lower i.stream.xhttp.host i.stream.xhttp.headers) q,
          erase-undefined,
        )
        refl;
}
carries lower i a other h = record {
  fields = [];
  written = refl;
  no_sni = refl;
  no_fp = refl;
  no_alpn = refl;
  distinct = λ names. refl;
  read = λ names s. refl;
}
carries lower i a tcp (t, p, q) =
    let http = equals_text i.stream.tcp.type "http" in
    let host = get_header lower i.stream.tcp.request.headers "host" in
    let (path, w, r) = path_back http i.stream.tcp.request.path p in
    record {
      fields =
          (true, "type", i.stream.tcp.type)
          ∷ (http, "path", path)
          ∷ (http && truthy host, "host", host)
          ∷ [];
      written = rw w refl;
      no_sni = refl;
      no_fp = refl;
      no_alpn = refl;
      distinct = λ names. refl;
      read = λ names s.
          rw (default-erase (str "none") i.stream.tcp.type t, nullish_back http host q, r) refl;
    }
