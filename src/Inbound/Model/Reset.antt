-- ===== src/Inbound/Model/Reset.antt =====
-- `reset` of `Inbound` (web/assets/js/model/inbound.js), and what is saved of the inbound afterwards.
use ax_ui.Common.{◌≡◌, refl, true, [], ◌∷◌, some, ok}
use ax_ui.Js.{Value, str}
use ax_ui.Js.Json.{erase, is_json}
use ax_ui.Inbound.Sniffing
use ax_ui.Inbound.Protocol
use ax_ui.Inbound.Protocol.{of_vmess}
use ax_ui.Inbound.Clients.Vmess as VmessClient
use ax_ui.Inbound.Model.{Inbound, Random, from_json, to_json, reset}
use ax_ui.Inbound.Model.RoundTrip.{IsJson, from_json-to_json_inbound}
use ax_ui.Stream.Settings as Stream
use ax_ui.Stream.Settings.RoundTrip as StreamTrip

-- JSON can write what is drawn for a VMess inbound.
pub record IsDrawn (random : Random) : Type 0 where
  pub port : is_json random.port ≡ true
  pub id : is_json (random.settings.vmess 0).id ≡ true
  pub email : is_json (random.settings.vmess 0).email ≡ true
  pub sub_id : is_json (random.settings.vmess 0).sub_id ≡ true

-- The inbound after `reset`.
abbrev fresh : Random → Inbound → Inbound
fresh random i = record {
  port = random.port;
  listen = str "";
  protocol = str "vmess";
  settings = some (of_vmess (record { vmesses = VmessClient.new (random.settings.vmess 0) ∷ [] }));
  stream = Stream.new random.stream;
  tag = str "";
  sniffing = Sniffing.new;
  client_stats = i.client_stats;
}

abbrev pub fresh_settings : Random → Protocol.Settings
fresh_settings random =
    of_vmess (record { vmesses = VmessClient.new (random.settings.vmess 0) ∷ [] })

client-IsJson :
    (random : Random)
    → IsDrawn random
    → VmessClient.IsJson (VmessClient.new (random.settings.vmess 0))
unfolding is_json
client-IsJson random h = record {
  id = h.id;
  security = refl;
  email = h.email;
  limit_ip = refl;
  total_gb = refl;
  expiry_time = refl;
  enable = refl;
  tg_id = refl;
  sub_id = h.sub_id;
  comment = refl;
  reset = refl;
  created_at = refl;
  updated_at = refl;
}

stream-IsJson : (random : Random) → StreamTrip.IsJson (Stream.new random.stream)
unfolding is_json
stream-IsJson random = record {
  network = refl;
  security = refl;
  external_proxy = refl;
  tls = λ e. cc;
  reality = λ e. cc;
  tcp = λ e. record {
    accept_proxy_protocol = refl;
    type = refl;
    request = record { version = refl; method = refl; path = refl; headers = refl };
    response = record { version = refl; status = refl; reason = refl; headers = refl };
  };
  kcp = λ e. cc;
  ws = λ e. cc;
  grpc = λ e. cc;
  httpupgrade = λ e. cc;
  xhttp = λ e. cc;
  finalmask = λ e. cc;
  sockopt = tt;
}

fresh-IsJson :
    (random other : Random) (i : Inbound)
    → IsDrawn random
    → is_json i.client_stats ≡ true
    → IsJson other (fresh_settings random) (fresh random i)
unfolding is_json
fresh-IsJson random other i h c = record {
  port = h.port;
  listen = refl;
  protocol = refl;
  settings = refl;
  settings_json = record { vmesses = (client-IsJson random h, tt) };
  stream = λ e. stream-IsJson random;
  tag = refl;
  sniffing = record {
    enabled = refl;
    dest_override = refl;
    dest_array = refl;
    metadata_only = refl;
    route_only = refl;
  };
  client_stats = c;
}

-- After `reset` an inbound, whatever it was, is a VMess inbound with the port and the client that were
-- drawn, and it comes back from JSON as it is, but for what is drawn again for Reality, if JSON can write
-- the values drawn and the statistics, which `reset` leaves.
pub from_json-reset :
    (random other : Random) (i : Inbound)
    → IsDrawn random
    → is_json i.client_stats ≡ true
    → (j : Inbound) × (v : Value) × (reset random i ≡ ok j)
      × (j.port ≡ random.port)
      × (j.settings ≡ some (fresh_settings random))
      × (to_json j ≡ ok v)
      × (from_json other (erase v) ≡ ok (record j { stream = Stream.new other.stream }))
unfolding reset Protocol.get_settings
from_json-reset random other i h c =
    let (v, w, r) =
      from_json-to_json_inbound other (fresh_settings random) (fresh random i)
        (fresh-IsJson random other i h c) in
    (fresh random i, v, refl, refl, refl, w, r)
