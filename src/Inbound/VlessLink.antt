-- ===== src/Inbound/VlessLink.antt =====
-- `genVLESSLink` of `Inbound` (web/assets/js/model/inbound.js): the parts of the link and its parameters,
-- each with the condition under which it is set. The text that the browser's URL makes of them is left out.
use ax_ui.Common.{
  Bool, true, false, not, ◌&&◌, List, [], ◌∷◌, ◌++◌, String, ◌==◌, Option, none, some, Result, ok,
  ◌≡◌, arith, type_error, ◌>>=◌, if◌then◌else◌,
}
use Prim.Native.String
use ax_ui.Js.{Value, undefined, null, str, default, truthy, equals_text, equals_loose, to_text}
use ax_ui.Js.Operators.{has_length, join_commas, comma}
use ax_ui.Js.Part.{when}
use ax_ui.Js.Text.{split}
use ax_ui.ObjectUtil.{is_empty, is_arr_empty}
use ax_ui.Headers.{Header}
use ax_ui.Stream.Tcp
use ax_ui.Stream.Settings as Stream
use ax_ui.Inbound.Protocol
use ax_ui.Inbound.Protocol.{of_vless}
use ax_ui.Inbound.Model.{Inbound}
use ax_ui.Inbound.VmessLink.{
  Fields, Network, network_of, tcp, kcp, ws, grpc, httpupgrade, xhttp, other, host_of,
}

-- The value of the first header that is `host` in lower case, if there is one.
unfoldable pub find_host : (String → String) → List Header → Option Value
find_host lower [] = none
find_host lower (h ∷ hs) =
    let rest = find_host lower hs in if lower h.name == "host" then some h.value else rest

abbrev pub is_found : Option Value → Bool
is_found none = false
is_found (some v) = true

abbrev pub found : Option Value → Value
found none = undefined
found (some v) = v

abbrev pub tcp_params : (String → String) → Tcp.Tcp → Result Fields
tcp_params lower s = do
  path ← when (equals_text s.type "http") (join_commas s.request.path)
  ok (
      (equals_text s.type "http", "path", path)
      ∷ (
        equals_text s.type "http" && is_found (find_host lower s.request.headers),
        "host",
        found (find_host lower s.request.headers),
      )
      ∷ (equals_text s.type "http", "headerType", str "http")
      ∷ [])

-- The parameters that the network adds.
abbrev pub transport_params : (String → String) → Stream.StreamSettings → Network → Result Fields
transport_params lower s tcp = tcp_params lower s.tcp
transport_params lower s kcp = ok []
transport_params lower s ws =
    ok ((true, "path", s.ws.path) ∷ (true, "host", host_of lower s.ws.host s.ws.headers) ∷ [])
transport_params lower s grpc = ok (
    (true, "serviceName", s.grpc.service_name)
    ∷ (true, "authority", s.grpc.authority)
    ∷ (truthy s.grpc.multi_mode, "mode", str "multi")
    ∷ [])
transport_params lower s httpupgrade = ok (
    (true, "path", s.httpupgrade.path)
    ∷ (true, "host", host_of lower s.httpupgrade.host s.httpupgrade.headers)
    ∷ [])
transport_params lower s xhttp = ok (
    (true, "path", s.xhttp.path)
    ∷ (true, "host", host_of lower s.xhttp.host s.xhttp.headers)
    ∷ (true, "mode", s.xhttp.mode)
    ∷ [])
transport_params lower s other = ok []

-- The arguments of the link.
pub record Share : Type 0 where
  pub address : Value
  pub port : Value
  pub force_tls : Value
  pub remark : Value
  pub client_id : Value
  pub flow : Value

-- `forceTls == 'same' ? this.stream.security : forceTls`
abbrev pub chosen : Inbound → Value → Value
chosen i force_tls = if equals_loose force_tls "same" then i.stream.security else force_tls

-- The branches on the security.
pub data Security : Type 0 where
  tls reality neither : Security

abbrev security_of_text : String → Security
security_of_text t = if t == "tls" then tls else if t == "reality" then reality else neither

unfoldable pub security_of : Value → Security
security_of (str t) = security_of_text t
security_of v = neither

-- `type == 'tcp' && !ObjectUtil.isEmpty(flow)`
abbrev pub shows_flow : Inbound → Share → Bool
shows_flow i a = equals_loose i.stream.network "tcp" && not (is_empty a.flow)

-- The parameters of TLS: but for the first only where the inbound itself has TLS.
abbrev pub tls_params : Inbound → Share → Bool → Fields
tls_params i a on =
    (true, "security", str "tls")
    ∷ (on, "fp", i.stream.tls.settings.fingerprint)
    ∷ (on, "alpn", i.stream.tls.alpn)
    ∷ (on && not (is_empty i.stream.tls.sni), "sni", i.stream.tls.sni)
    ∷ (
      on && has_length i.stream.tls.settings.ech_config_list,
      "ech",
      i.stream.tls.settings.ech_config_list,
    )
    ∷ (on && shows_flow i a, "flow", a.flow)
    ∷ []

abbrev pub first_text : List String → String
first_text [] = ""
first_text (p ∷ ps) = p

-- `v.split(',')[0]`; only a text has `split`.
unfoldable pub first_part : Value → Result Value
first_part (str s) = ok (str (first_text (split comma s)))
first_part v = type_error

-- `ids.split(',')[0]`, where `ids.length > 0`.
abbrev pub first_id : Value → Result Value
first_id undefined = type_error
first_id null = type_error
first_id v = when (has_length v) (first_part v)

-- The parameters of Reality, given the first name and the first id.
abbrev pub reality_params : Inbound → Share → (name id : Value) → Fields
reality_params i a name id =
    (true, "security", str "reality")
    ∷ (true, "pbk", i.stream.reality.settings.public_key)
    ∷ (true, "fp", i.stream.reality.settings.fingerprint)
    ∷ (not (is_arr_empty i.stream.reality.server_names), "sni", name)
    ∷ (has_length i.stream.reality.short_ids, "sid", id)
    ∷ (not (is_empty i.stream.reality.settings.spider_x), "spx", i.stream.reality.settings.spider_x)
    ∷ (
      not (is_empty i.stream.reality.settings.mldsa65_verify),
      "pqv",
      i.stream.reality.settings.mldsa65_verify,
    )
    ∷ (shows_flow i a, "flow", a.flow)
    ∷ []

-- The parameters that the security adds.
abbrev pub security_params : Inbound → Share → Security → Result Fields
security_params i a tls = ok (tls_params i a (equals_text i.stream.security "tls"))
security_params i a reality = do
  name ←
      when (not (is_arr_empty i.stream.reality.server_names))
        (first_part i.stream.reality.server_names)
  id ← first_id i.stream.reality.short_ids
  ok (reality_params i a name id)
security_params i a neither = ok ((true, "security", str "none") ∷ [])

-- `settings.encryption`: only the settings of VLESS have one, and `null` has no property.
abbrev pub encryption_of : Option Protocol.Settings → Result Value
encryption_of none = type_error
encryption_of (some (of_vless s)) = ok s.encryption
encryption_of (some s) = ok undefined

-- The parts of the text `vless://user@address:port?params#remark`.
pub record Link : Type 0 where
  pub user : Value
  pub address : Value
  pub port : Value
  pub params : Fields
  pub remark : Value

abbrev pub base_params : Inbound → Value → Fields
base_params i encryption = (true, "type", i.stream.network) ∷ (true, "encryption", encryption) ∷ []

-- The text of a template literal, of its parts.
abbrev pub template : List String → String
template [] = ""
template (s ∷ ss) = String.◌++◌ s (template ss)

-- The text that `new URL` is given: `${scheme}://${user}@${address}:${port}`.
abbrev pub origin : String → Link → String
origin scheme l =
    template (scheme ∷ "://" ∷ to_text l.user ∷ "@" ∷ to_text l.address ∷ ":" ∷ to_text l.port ∷ [])

-- `new URL(…)`, which throws where the text is no URL; `is_url` says where it is one.
unfoldable pub checked : (String → Bool) → String → Link → Result Link
checked is_url scheme l = if is_url (origin scheme l) then ok l else type_error

unfoldable pub gen_vless_link :
    (is_url : String → Bool) (lower : String → String) → Inbound → Share → Result Link
gen_vless_link is_url lower i a = do
  encryption ← encryption_of i.settings
  transport ← transport_params lower i.stream (network_of i.stream.network)
  security ← security_params i a (security_of (chosen i a.force_tls))
  checked is_url "vless" (record {
    user = a.client_id;
    address = default (str "") a.address;
    port = default i.port a.port;
    params = base_params i encryption ++ transport ++ security;
    remark = default (str "") a.remark;
  })

-- Where the text is a URL, the link is given as it is.
pub checked_ok :
    (is_url : String → Bool) (scheme : String) (m l : Link) → checked is_url scheme m ≡ ok l → m ≡ l
unfolding checked
checked_ok is_url scheme m l e = ground arith
