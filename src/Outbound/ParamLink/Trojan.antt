-- ===== src/Outbound/ParamLink/Trojan.antt =====
-- The link of a Trojan inbound, read as an outbound (web/assets/js/model/inbound.js and outbound.js).

use mathlib.Core.Path.{fun_ext, subst}
use ax_ui.Common.{◌≡◌, refl, sym, ◌∙◌, ◌++◌, String, Bool, some, ok}
use ax_ui.Js.{undefined, str, default, to_text}
use ax_ui.Js.Operators.{times_one}
use ax_ui.Inbound.Model.{Inbound}
use ax_ui.Inbound.VlessLink.{chosen, security_of, Link, checked, checked_ok}
use ax_ui.Outbound.Settings.Wireguard.{Calls}
use ax_ui.Outbound.ParamLink.Lookup.{sees}
use ax_ui.Outbound.Model.{Outbound, create}
use ax_ui.Outbound.ParamLink.{Opened, read_settings, from_param_link}
use ax_ui.Outbound.ParamLink.Carried.{
  carried_tag, carried_port, carried_stream, carried_tag, IsShared, IsOpened,
}
use ax_ui.Outbound.ParamLink.Streams.{remark_back, streams}
use ax_ui.Inbound.TrojanLink as Trojan
use ax_ui.Inbound.TrojanLink.{gen_trojan_link}
use ax_ui.Outbound.Mux
use ax_ui.Outbound.Protocol.{of_trojan}
use ax_ui.Outbound.ParamLink.Security.{Secures-trojan}
use ax_ui.Outbound.ParamLink.Carried.{text}

-- The outbound that the link stands for.
abbrev pub carried_trojan : Calls → (String → String) → Inbound → Trojan.Share → Outbound
carried_trojan calls lower i a = record {
  tag =
      carried_tag "trojan" (to_text (default (str "") a.remark))
        (to_text (carried_port calls (default i.port a.port)));
  protocol = str "trojan";
  settings = some (
      of_trojan (record {
        address = text (default (str "") a.address);
        port = carried_port calls (default i.port a.port);
        password = text a.client_password;
      }));
  stream = carried_stream lower i (security_of (chosen i a.force_tls));
  send_through = undefined;
  mux = Mux.new;
}

-- The link of Trojan that is written, and what is read of it.
trojan_back :
    (is_url : String → Bool) (lower : String → String) (i : Inbound) (a : Trojan.Share)
    → IsShared i (security_of (chosen i a.force_tls))
    → (l : Link) × (gen_trojan_link is_url lower i a ≡ checked is_url "trojan" l)
      × ((calls : Calls) (atob : String → String) (x : Opened)
          → IsOpened "trojan" l x
          → from_param_link calls atob x ≡ ok (some (carried_trojan calls lower i a)))
unfolding gen_trojan_link from_param_link read_settings create times_one to_text
trojan_back is_url lower i a h =
    let k = security_of (chosen i a.force_tls) in
    let q = Secures-trojan i k h.names h.server_names h.short_ids in
    let m = streams lower i k h q in
    let get = sees (Trojan.base_params i ++ m.transport) q.fields m.clear in
    (
      record {
        user = a.client_password;
        address = default (str "") a.address;
        port = default i.port a.port;
        params = Trojan.base_params i ++ m.transport ++ q.fields;
        remark = default (str "") a.remark;
      },
      rw (m.written, m.secured) refl,
      λ calls atob x o.
          rw (o.found, fun_ext o.get, o.hash)
            (rw
              (m.read _ refl
                (record {
                  header_type = refl;
                  host = refl;
                  path = refl;
                  service_name = refl;
                  authority = refl;
                  mode = refl;
                })
                get)
              (rw (remark_back "trojan" _ _) refl)),
    )

-- A link of a Trojan inbound, opened in the browser, gives an outbound of Trojan with the address, the port,
-- the password and the remark of the link; with the network, its path, host, service name, authority and
-- mode; and with the settings that a client needs for TLS or for Reality, where the link has either, each
-- as its text, if the network is a text other than `none`, the path of HTTP over TCP is an array, the names
-- of the protocols of TLS are texts without commas, the first of them not empty, and the names and ids of
-- Reality are texts.
pub from_param_link-gen_trojan_link :
    (calls : Calls) (is_url : String → Bool) (lower atob : String → String) (i : Inbound)
    (a : Trojan.Share) (l : Link) (x : Opened)
    → IsShared i (security_of (chosen i a.force_tls))
    → gen_trojan_link is_url lower i a ≡ ok l
    → IsOpened "trojan" l x
    → from_param_link calls atob x ≡ ok (some (carried_trojan calls lower i a))
from_param_link-gen_trojan_link calls is_url lower atob i a l x h e o =
    let (m, f, back) = trojan_back is_url lower i a h in
    let same = checked_ok is_url "trojan" m l (sym f ∙ e) in
    back calls atob x (subst (λ k. IsOpened "trojan" k x) (sym same) o)
