-- ===== src/Tests/LinkRuns.antt =====
-- Links of inbounds, read as outbounds (web/assets/js/model/inbound.js and outbound.js).
use ax_ui.Common.{◌≡◌, refl, String, [], ◌∷◌, ok, some, none, ◌==◌, if◌then◌else◌}
use ax_ui.Common.Int.{pos}
use ax_ui.Js.{Value, undefined, null, nat, str}
use ax_ui.Js.Json.{erase, is_json}
use ax_ui.Js.Joined.{none_has_char, has_char}
use ax_ui.Headers.{header}
use ax_ui.Stream.Xhttp
use ax_ui.Stream.Settings as Stream
use ax_ui.Tests.StreamRuns as StreamRuns
use ax_ui.Inbound.Sniffing
use ax_ui.Inbound.Model.{Inbound}
use ax_ui.Inbound.VmessLink.{Share, gen_vmess_link, get_header, network_of}
use ax_ui.Outbound.Settings.Wireguard.{Calls}
use ax_ui.Outbound.HysteriaLink.{
  Reading, Opened, from_hysteria_link, both_ends, from_hysteria_link-both_ends,
}
use ax_ui.Outbound.VmessLink.{from_vmess_link}
use ax_ui.Outbound.VmessLink.Carried.{IsShared, carried}
use ax_ui.Outbound.VmessLink.RoundTrip.{from_vmess_link-gen_vmess_link}

-- One key pair, and a `Number` that reads one numeral.
abbrev pub calls : Calls
calls = record {
  public_of = λ v. ok (str "K=");
  number = λ t. if t == "443" then nat 443 else null;
}

-- `toLowerCase` of the one name in use.
abbrev pub lower : String → String
lower t = if t == "Host" then "host" else t

-- VMess over XHTTP and TLS, with the host in a header.
abbrev inbound : Inbound
inbound = record {
  port = nat 443;
  listen = str "";
  protocol = str "vmess";
  settings = none;
  stream = record (Stream.new StreamRuns.random) {
    network = str "xhttp";
    security = str "tls";
    xhttp = record Xhttp.new {
      path = str "/up";
      headers = header "Host" (str "example.com") ∷ [];
      mode = str "stream-one";
    };
  };
  tag = str "";
  sniffing = Sniffing.new;
  client_stats = str "";
}

abbrev share : Share
share = record {
  address = str "203.0.113.7";
  port = undefined;
  force_tls = str "same";
  remark = str "home";
  client_id = str "5783a3e7";
  security = str "auto";
}

inbound-IsShared : IsShared lower inbound share
unfolding is_json get_header network_of none_has_char has_char
inbound-IsShared = record {
  protocol = refl;
  remark = refl;
  address = refl;
  port = (pos 443, refl);
  client_id = refl;
  security = refl;
  network = refl;
  tls = refl;
  transport = (refl, refl);
  tls_json = λ e. record {
    sni = refl;
    fingerprint = refl;
    alpn = ("h2" ∷ "http/1.1" ∷ [], refl, (refl, refl));
  };
}

from_vmess_link-gen_vmess_link_example :
    (v : Value) × (gen_vmess_link lower inbound share ≡ ok (some v))
    × (from_vmess_link calls (erase v) ≡ ok (carried lower inbound share))
from_vmess_link-gen_vmess_link_example =
    from_vmess_link-gen_vmess_link calls lower inbound share inbound-IsShared

-- A link with one interval, in a browser whose `parseInt` reads one numeral.
abbrev reading : Reading
reading = record { parse_int = λ t. if t == "45" then nat 45 else nat 30; decode = λ t. t }

abbrev old_link : Opened
old_link = record {
  found = some (record { password = "pw"; address = "203.0.113.7"; port = "45"; hash = "#home" });
  get = λ k. if k == "udphopInterval" then some "45" else none;
}

from_hysteria_link-both_ends_example :
    from_hysteria_link calls reading old_link
    ≡ from_hysteria_link calls reading (record old_link { get = both_ends "45" old_link.get })
from_hysteria_link-both_ends_example = from_hysteria_link-both_ends calls reading old_link "45" refl
