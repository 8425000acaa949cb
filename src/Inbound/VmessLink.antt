-- ===== src/Inbound/VmessLink.antt =====
-- `genVmessLink` and `getHeader` of `Inbound` (web/assets/js/model/inbound.js): the object that the link
-- holds. Its text, which is Base64 of JSON after `vmess://`, is left out, and so is the indentation.
use ax_ui.Common.{
  Bool, true, not, ◌&&◌, List, [], ◌∷◌, ◌++◌, String, ◌==◌, Option, none, some, Result, ok,
  type_error, ◌>>=◌, if◌then◌else◌,
}
use ax_ui.Js.{Value, undefined, null, str, obj, default, truthy, equals_text, equals_loose}
use ax_ui.Js.Given.{given}
use ax_ui.Js.Operators.{has_length, join_commas}
use ax_ui.Js.Part.{when}
use ax_ui.ObjectUtil.{is_empty}
use ax_ui.Headers.{Header}
use ax_ui.Stream.Tcp
use ax_ui.Stream.Tls
use ax_ui.Stream.Settings as Stream
use ax_ui.Inbound.Model.{Inbound}

-- The properties of an object literal, each with the condition under which it is set.
abbrev pub Fields : Type 0
Fields = List (Bool × String × Value)

-- The networks that the link has properties for.
pub data Network : Type 0 where
  tcp kcp ws grpc httpupgrade xhttp other : Network

abbrev network_of_text : String → Network
network_of_text t =
    if t == "tcp"
    then tcp
    else if t == "kcp"
    then kcp
    else if t == "ws"
    then ws
    else if t == "grpc"
    then grpc
    else if t == "httpupgrade"
    then httpupgrade
    else if t == "xhttp"
    then xhttp
    else other

-- `network === 'tcp'` and so on.
unfoldable pub network_of : Value → Network
network_of (str t) = network_of_text t
network_of v = other

-- `getHeader`, given `toLowerCase`.
unfoldable pub get_header : (String → String) → List Header → String → Value
get_header lower [] name = str ""
get_header lower (h ∷ hs) name =
    let rest = get_header lower hs name in if lower h.name == lower name then h.value else rest

-- `host?.length > 0 ? host : getHeader(part, 'host')`
abbrev pub host_of : (String → String) → Value → List Header → Value
host_of lower host headers = if has_length host then host else get_header lower headers "host"

abbrev pub tcp_fields : (String → String) → Tcp.Tcp → Result Fields
tcp_fields lower s = do
  path ← when (equals_text s.type "http") (join_commas s.request.path)
  ok (
      (true, "type", s.type)
      ∷ (equals_text s.type "http", "path", path)
      ∷ (
        equals_text s.type "http" && truthy (get_header lower s.request.headers "host"),
        "host",
        get_header lower s.request.headers "host",
      )
      ∷ [])

-- The properties that the network adds.
abbrev pub transport_fields : (String → String) → Stream.StreamSettings → Network → Result Fields
transport_fields lower s tcp = tcp_fields lower s.tcp
transport_fields lower s kcp = ok []
transport_fields lower s ws =
    ok ((true, "path", s.ws.path) ∷ (true, "host", host_of lower s.ws.host s.ws.headers) ∷ [])
transport_fields lower s grpc = ok (
    (true, "path", s.grpc.service_name)
    ∷ (true, "authority", s.grpc.authority)
    ∷ (truthy s.grpc.multi_mode, "type", str "multi")
    ∷ [])
transport_fields lower s httpupgrade = ok (
    (true, "path", s.httpupgrade.path)
    ∷ (true, "host", host_of lower s.httpupgrade.host s.httpupgrade.headers)
    ∷ [])
transport_fields lower s xhttp = ok (
    (true, "path", s.xhttp.path)
    ∷ (true, "host", host_of lower s.xhttp.host s.xhttp.headers)
    ∷ (true, "type", s.xhttp.mode)
    ∷ [])
transport_fields lower s other = ok []

-- `alpn.join(',')`, where `alpn.length > 0`.
abbrev pub alpn_text : Value → Result Value
alpn_text undefined = type_error
alpn_text null = type_error
alpn_text v = when (has_length v) (join_commas v)

-- The properties that TLS adds, given the text of `alpn`.
abbrev pub tls_fields : Bool → Tls.Tls → Value → Fields
tls_fields on s alpn =
    (on && not (is_empty s.sni), "sni", s.sni)
    ∷ (on && not (is_empty s.settings.fingerprint), "fp", s.settings.fingerprint)
    ∷ (on && has_length s.alpn, "alpn", alpn)
    ∷ []

-- The arguments of the link.
pub record Share : Type 0 where
  pub address : Value
  pub port : Value
  pub force_tls : Value
  pub remark : Value
  pub client_id : Value
  pub security : Value

-- `forceTls == 'same' ? this.stream.security : forceTls`
abbrev pub chosen_tls : Inbound → Share → Value
chosen_tls i a = if equals_loose a.force_tls "same" then i.stream.security else a.force_tls

abbrev pub base_fields : Inbound → Share → Fields
base_fields i a =
    (true, "v", str "2")
    ∷ (true, "ps", default (str "") a.remark)
    ∷ (true, "add", default (str "") a.address)
    ∷ (true, "port", default i.port a.port)
    ∷ (true, "id", a.client_id)
    ∷ (true, "scy", a.security)
    ∷ (true, "net", i.stream.network)
    ∷ (true, "tls", chosen_tls i a)
    ∷ []

-- `none` stands for the empty text, which is the result for any other protocol.
unfoldable pub gen_vmess_link : (String → String) → Inbound → Share → Result (Option Value)
gen_vmess_link lower i a = if not (equals_text i.protocol "vmess") then ok none else (do
  transport ← transport_fields lower i.stream (network_of i.stream.network)
  alpn ← when (equals_text (chosen_tls i a) "tls") (alpn_text i.stream.tls.alpn)
  ok (
      some (
        obj (
          given (
            base_fields i a
            ++ transport
            ++ tls_fields (equals_text (chosen_tls i a) "tls") i.stream.tls alpn)))))
