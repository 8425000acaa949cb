-- ===== src/Tests/VlessLinkRuns.antt =====
-- The link of a VLESS inbound over Reality, read as an outbound
-- (web/assets/js/model/inbound.js and outbound.js).
use ax_ui.Common.{◌≡◌, refl, true, ok, some}
use ax_ui.Js.{undefined, str, to_text}
use ax_ui.Stream.Reality.{create}
use ax_ui.Stream.Settings as Stream
use ax_ui.Tests.StreamRuns as StreamRuns
use ax_ui.Tests.InboundRuns.{vless}
use ax_ui.Tests.ModelRuns as ModelRuns
use ax_ui.Inbound.Model.{Inbound}
use ax_ui.Inbound.VlessLink.{Share, Link, gen_vless_link, security_of, chosen}
use ax_ui.Tests.LinkRuns.{calls, lower}
use ax_ui.Outbound.ParamLink.{Opened, from_param_link}
use ax_ui.Outbound.ParamLink.Carried.{IsShared, IsOpened, carried, text_at, hash_of, name_of}
use ax_ui.Outbound.ParamLink.RoundTrip.{gen_vless_link_lem, from_param_link-gen_vless_link}

abbrev inbound : Inbound
inbound = record ModelRuns.inbound {
  stream = record (Stream.new StreamRuns.random) { security = str "reality" };
}

abbrev share : Share
share = record {
  address = str "203.0.113.7";
  port = undefined;
  force_tls = str "same";
  remark = str "home";
  client_id = str "5783a3e7";
  flow = str "xtls-rprx-vision";
}

inbound-IsShared : IsShared inbound (security_of (chosen inbound share.force_tls))
unfolding create
inbound-IsShared = record {
  network = ("tcp", refl, refl);
  path = λ e. cc;
  names = λ e. cc;
  server_names = λ e. refl;
  short_ids = λ e. refl;
}

gen_vless_link_lem_example :
    (l : Link) × (gen_vless_link (λ t. true) lower inbound share ≡ ok l)
    × (text_at "type" l.params ≡ some (to_text inbound.stream.network))
    × (text_at "security" l.params ≡ some (name_of (security_of (chosen inbound share.force_tls))))
gen_vless_link_lem_example =
    gen_vless_link_lem (λ t. true) lower inbound share vless refl inbound-IsShared

abbrev link : Link
link = gen_vless_link_lem_example.0

-- The link as a browser opens it.
abbrev opened : Opened
opened = record {
  get = λ k. text_at k link.params;
  hash = hash_of (to_text link.remark);
  found = some (record {
    protocol = "vless";
    user_data = to_text link.user;
    address = to_text link.address;
    port = to_text link.port;
  });
}

opened-IsOpened : IsOpened "vless" link opened
opened-IsOpened = record { get = λ k. refl; hash = refl; found = refl }

from_param_link-gen_vless_link_example :
    from_param_link calls (λ t. t) opened ≡ ok (some (carried calls lower inbound share vless))
from_param_link-gen_vless_link_example =
    from_param_link-gen_vless_link calls (λ t. true) lower (λ t. t) inbound share vless link opened
      refl inbound-IsShared (gen_vless_link_lem_example.1) opened-IsOpened
