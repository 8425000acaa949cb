-- ===== src/Tests/TrojanLinkRuns.antt =====
-- The link of a Trojan inbound over WebSocket and TLS, read as an outbound
-- (web/assets/js/model/inbound.js and outbound.js).
use ax_ui.Common.{◌≡◌, refl, true, [], ◌∷◌, ok, some, none}
use ax_ui.Js.{undefined, str, to_text}
use ax_ui.Js.Joined.{none_has_char, has_char}
use ax_ui.Tests.StreamRuns as StreamRuns
use ax_ui.Tests.ModelRuns as ModelRuns
use ax_ui.Inbound.Model.{Inbound}
use ax_ui.Inbound.VlessLink.{Link, security_of, chosen, checked}
use ax_ui.Inbound.VmessLink.{network_of}
use ax_ui.Inbound.TrojanLink.{Share, gen_trojan_link}
use ax_ui.Tests.LinkRuns.{calls, lower}
use ax_ui.Outbound.ParamLink.{Opened, from_param_link}
use ax_ui.Outbound.ParamLink.Carried.{IsShared, IsOpened, text_at, hash_of}
use ax_ui.Outbound.ParamLink.Trojan.{carried_trojan, from_param_link-gen_trojan_link}

abbrev inbound : Inbound
inbound = record ModelRuns.inbound {
  protocol = str "trojan";
  settings = none;
  stream = StreamRuns.ws_tls;
}

abbrev share : Share
share = record {
  address = str "203.0.113.7";
  port = undefined;
  force_tls = str "same";
  remark = str "";
  client_password = str "secret";
}

inbound-IsShared : IsShared inbound (security_of (chosen inbound share.force_tls))
unfolding security_of none_has_char has_char
inbound-IsShared = record {
  network = ("ws", refl, refl);
  path = λ e. cc;
  names = λ e. ("h2" ∷ "http/1.1" ∷ [], refl, (refl, refl));
  server_names = λ e. absurd (cc e);
  short_ids = λ e. absurd (cc e);
}

written : (l : Link) × (gen_trojan_link (λ t. true) lower inbound share ≡ ok l)
unfolding gen_trojan_link security_of network_of checked
written = (_, refl)

abbrev opened : Opened
opened = record {
  get = λ k. text_at k (written.0.params);
  hash = hash_of (to_text (written.0.remark));
  found = some (record {
    protocol = "trojan";
    user_data = to_text (written.0.user);
    address = to_text (written.0.address);
    port = to_text (written.0.port);
  });
}

opened-IsOpened : IsOpened "trojan" (written.0) opened
opened-IsOpened = record { get = λ k. refl; hash = refl; found = refl }

from_param_link-gen_trojan_link_example :
    from_param_link calls (λ t. t) opened ≡ ok (some (carried_trojan calls lower inbound share))
from_param_link-gen_trojan_link_example =
    from_param_link-gen_trojan_link calls (λ t. true) lower (λ t. t) inbound share (written.0)
      opened inbound-IsShared (written.1) opened-IsOpened
