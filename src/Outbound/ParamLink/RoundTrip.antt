-- ===== src/Outbound/ParamLink/RoundTrip.antt =====
-- The link of a VLESS inbound, read as an outbound (web/assets/js/model/inbound.js and outbound.js).

use mathlib.Core.Path.{fun_ext, subst}
use ax_ui.Common.{
  ◌≡◌, refl, sym, ◌∙◌, [], ◌∷◌, ◌++◌, String, Bool, some, ok, type_error, if◌then◌else◌,
}
use ax_ui.Js.{str, default, to_text}
use ax_ui.Js.Operators.{times_one}
use ax_ui.Inbound.Settings.Vless as InboundVless
use ax_ui.Inbound.Protocol.{of_vless}
use ax_ui.Inbound.Model.{Inbound}
use ax_ui.Inbound.VlessLink.{
  Share, chosen, security_of, checked, checked_ok, template, origin, Link, gen_vless_link,
  base_params, encryption_of,
}
use ax_ui.Outbound.Settings.Wireguard.{Calls}
use ax_ui.Outbound.ParamLink.Lookup.{sees}
use ax_ui.Outbound.Model.{create}
use ax_ui.Outbound.ParamLink.{Opened, read_settings, from_param_link}
use ax_ui.Outbound.ParamLink.Carried.{carried, IsShared, IsOpened, text_at, name_of}
use ax_ui.Outbound.ParamLink.Security.{secures}
use ax_ui.Outbound.ParamLink.Streams.{remark_back, streams}

encryption_back :
    (i : Inbound) (s : InboundVless.VlessSettings)
    → i.settings ≡ some (of_vless s)
    → encryption_of i.settings ≡ ok s.encryption
encryption_back i s e = rw e refl

-- The text that the browser opens, where the link has the parts that are given.
abbrev vless_url : Inbound → Share → String
vless_url i a = template (
    "vless"
    ∷ "://"
    ∷ to_text a.client_id
    ∷ "@"
    ∷ to_text (default (str "") a.address)
    ∷ ":"
    ∷ to_text (default i.port a.port)
    ∷ [])

-- The link of VLESS that is written, and what is read of it.
vless_back :
    (is_url : String → Bool) (lower : String → String) (i : Inbound) (a : Share)
    (s : InboundVless.VlessSettings)
    → i.settings ≡ some (of_vless s)
    → IsShared i (security_of (chosen i a.force_tls))
    → (l : Link) × (gen_vless_link is_url lower i a ≡ checked is_url "vless" l)
      × (origin "vless" l ≡ vless_url i a)
      × (text_at "type" l.params ≡ some (to_text i.stream.network))
      × (text_at "security" l.params ≡ some (name_of (security_of (chosen i a.force_tls))))
      × ((calls : Calls) (atob : String → String) (x : Opened)
          → IsOpened "vless" l x
          → from_param_link calls atob x ≡ ok (some (carried calls lower i a s)))
unfolding gen_vless_link from_param_link read_settings create times_one to_text
vless_back is_url lower i a s v h =
    let (q, flow) =
      secures i a (security_of (chosen i a.force_tls)) h.names h.server_names h.short_ids in
    let m = streams lower i (security_of (chosen i a.force_tls)) h q in
    let get = sees (base_params i s.encryption ++ m.transport) q.fields m.clear in
    (
      record {
        user = a.client_id;
        address = default (str "") a.address;
        port = default i.port a.port;
        params = base_params i s.encryption ++ m.transport ++ q.fields;
        remark = default (str "") a.remark;
      },
      rw (encryption_back i s v) (rw (m.written, m.secured) refl),
      refl,
      refl,
      get.security ∙ m.named,
      λ calls atob x o.
          rw (o.found, fun_ext o.get, o.hash)
            (rw
              (m.read _ refl
                (record {
                  header_type = refl;
                  host = refl;
                  path = refl;
                  service_name = refl;
                  authority = refl;
                  mode = refl;
                })
                get)
              (rw get.flow (rw flow (rw (remark_back "vless" _ _) refl)))),
    )

-- A link is made of a VLESS inbound whose network is a text other than `none`, where the browser can open
-- the text `vless://user@address:port` of its parts, and the call throws where it cannot; a link has the
-- network as its type and TLS, Reality or `none` as its security, if the path of HTTP over TCP is an array, the
-- names of the protocols of TLS are texts without commas, the first of them not empty, and the names and
-- ids of Reality are texts.
pub gen_vless_link_lem :
    (is_url : String → Bool) (lower : String → String) (i : Inbound) (a : Share)
    (s : InboundVless.VlessSettings)
    → i.settings ≡ some (of_vless s)
    → IsShared i (security_of (chosen i a.force_tls))
    → (l : Link) × (gen_vless_link is_url lower i a
        ≡ (if is_url (vless_url i a) then ok l else type_error))
      × (text_at "type" l.params ≡ some (to_text i.stream.network))
      × (text_at "security" l.params ≡ some (name_of (security_of (chosen i a.force_tls))))
unfolding checked
gen_vless_link_lem is_url lower i a s v h =
    let (l, e, u, type, security, back) = vless_back is_url lower i a s v h in
    (l, rw u at e, type, security)

-- The link of a VLESS inbound, opened in the browser, gives an outbound of VLESS with the address, the port,
-- the user, the flow, the encryption and the remark of the link; with the network, its path, host, service
-- name, authority and mode; and with the settings that a client needs for TLS or for Reality, where the
-- link has either, each as its text. It holds for an inbound with the settings of VLESS whose network is a
-- text other than `none`, if the path of HTTP over TCP is an array, the names of the protocols of TLS are
-- texts without commas, the first of them not empty, and the names and ids of Reality are texts.
pub from_param_link-gen_vless_link :
    (calls : Calls) (is_url : String → Bool) (lower atob : String → String) (i : Inbound)
    (a : Share) (s : InboundVless.VlessSettings) (l : Link) (x : Opened)
    → i.settings ≡ some (of_vless s)
    → IsShared i (security_of (chosen i a.force_tls))
    → gen_vless_link is_url lower i a ≡ ok l
    → IsOpened "vless" l x
    → from_param_link calls atob x ≡ ok (some (carried calls lower i a s))
from_param_link-gen_vless_link calls is_url lower atob i a s l x v h e o =
    let (m, f, u, type, security, back) = vless_back is_url lower i a s v h in
    let same = checked_ok is_url "vless" m l (sym f ∙ e) in
    back calls atob x (subst (λ k. IsOpened "vless" k x) (sym same) o)
