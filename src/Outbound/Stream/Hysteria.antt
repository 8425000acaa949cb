-- ===== src/Outbound/Stream/Hysteria.antt =====
-- `HysteriaStreamSettings` (web/assets/js/model/outbound.js).
use ax_ui.Common.{
  ◌≡◌, refl, true, false, List, [], ◌∷◌, Bool, String, Result, ok, ◌>>=◌, if◌then◌else◌, Bool-cases,
  inl, inr,
}
use ax_ui.Js.{
  undefined, Value, bool, nat, str, obj, entries, default, reader, truthy, or_value, is_undefined,
}
use ax_ui.Js.Json.{erase, is_json, default-erase, erase-is_json}
use ax_ui.Js.Lookup.{
  open_json, open_json-erase, open_json-undefined, reader-erase, erase-undefined, truthy-erase_obj,
}
use ax_ui.Js.Given.{given, distinct_keys-given, property-given}
use ax_ui.Js.Part.{Part}

pub record Hysteria : Type 0 where
  pub version : Value
  pub auth : Value
  pub congestion : Value
  pub up : Value
  pub down : Value
  pub udphop_port : Value
  pub udphop_interval_min : Value
  pub udphop_interval_max : Value
  pub init_stream_receive_window : Value
  pub max_stream_receive_window : Value
  pub init_connection_receive_window : Value
  pub max_connection_receive_window : Value
  pub max_idle_timeout : Value
  pub keep_alive_period : Value
  pub disable_path_mtu_discovery : Value

-- The constructor with no argument.
abbrev pub new : Hysteria
new = record {
  version = nat 2;
  auth = str "";
  congestion = str "";
  up = str "0";
  down = str "0";
  udphop_port = str "";
  udphop_interval_min = nat 30;
  udphop_interval_max = nat 30;
  init_stream_receive_window = nat 8388608;
  max_stream_receive_window = nat 8388608;
  init_connection_receive_window = nat 20971520;
  max_connection_receive_window = nat 20971520;
  max_idle_timeout = nat 30;
  keep_alive_period = nat 0;
  disable_path_mtu_discovery = bool false;
}

-- The port and the interval of port hopping.
pub record Hop : Type 0 where
  pub port : Value
  pub interval_min : Value
  pub interval_max : Value

-- One `interval` of an older configuration stands for both ends.
abbrev intervals : (String → Value) → Value → Hop
intervals at interval =
    if is_undefined interval
    then record {
      port = or_value (at "port") (str "");
      interval_min = or_value (at "intervalMin") (nat 30);
      interval_max = or_value (at "intervalMax") (nat 30);
    }
    else record {
      port = or_value (at "port") (str "");
      interval_min = interval;
      interval_max = interval;
    }

abbrev hop_of : Value → Result Hop
hop_of v =
    if truthy v
    then (do at ← reader v; ok (intervals at (at "interval")))
    else ok (record { port = str ""; interval_min = nat 30; interval_max = nat 30 })

unfoldable pub from_json : Value → Result Hysteria
from_json json = do
  at ← open_json json
  hop ← hop_of (at "udphop")
  ok (record {
    version = default new.version (at "version");
    auth = default new.auth (at "auth");
    congestion = default new.congestion (at "congestion");
    up = default new.up (at "up");
    down = default new.down (at "down");
    udphop_port = hop.port;
    udphop_interval_min = hop.interval_min;
    udphop_interval_max = hop.interval_max;
    init_stream_receive_window =
        default new.init_stream_receive_window (at "initStreamReceiveWindow");
    max_stream_receive_window = default new.max_stream_receive_window (at "maxStreamReceiveWindow");
    init_connection_receive_window =
        default new.init_connection_receive_window (at "initConnectionReceiveWindow");
    max_connection_receive_window =
        default new.max_connection_receive_window (at "maxConnectionReceiveWindow");
    max_idle_timeout = default new.max_idle_timeout (at "maxIdleTimeout");
    keep_alive_period = default new.keep_alive_period (at "keepAlivePeriod");
    disable_path_mtu_discovery =
        default new.disable_path_mtu_discovery (at "disablePathMTUDiscovery");
  })

abbrev hop_object : Hysteria → Value
hop_object s = obj (
    entries (
      ("port", s.udphop_port)
      ∷ ("intervalMin", s.udphop_interval_min)
      ∷ ("intervalMax", s.udphop_interval_max)
      ∷ []))

-- The properties, with the condition of the one that is not always set.
abbrev fields : Hysteria → List (Bool × String × Value)
fields s =
    (true, "version", s.version)
    ∷ (true, "auth", s.auth)
    ∷ (true, "congestion", s.congestion)
    ∷ (true, "up", s.up)
    ∷ (true, "down", s.down)
    ∷ (true, "initStreamReceiveWindow", s.init_stream_receive_window)
    ∷ (true, "maxStreamReceiveWindow", s.max_stream_receive_window)
    ∷ (true, "initConnectionReceiveWindow", s.init_connection_receive_window)
    ∷ (true, "maxConnectionReceiveWindow", s.max_connection_receive_window)
    ∷ (true, "maxIdleTimeout", s.max_idle_timeout)
    ∷ (true, "keepAlivePeriod", s.keep_alive_period)
    ∷ (true, "disablePathMTUDiscovery", s.disable_path_mtu_discovery)
    ∷ (truthy s.udphop_port, "udphop", hop_object s)
    ∷ []

unfoldable pub to_json : Hysteria → Value
to_json s = obj (given (fields s))

-- Every field holds a value that JSON can write.
pub record IsJson (s : Hysteria) : Type 0 where
  pub version : is_json s.version ≡ true
  pub auth : is_json s.auth ≡ true
  pub congestion : is_json s.congestion ≡ true
  pub up : is_json s.up ≡ true
  pub down : is_json s.down ≡ true
  pub udphop_port : is_json s.udphop_port ≡ true
  pub udphop_interval_min : is_json s.udphop_interval_min ≡ true
  pub udphop_interval_max : is_json s.udphop_interval_max ≡ true
  pub init_stream_receive_window : is_json s.init_stream_receive_window ≡ true
  pub max_stream_receive_window : is_json s.max_stream_receive_window ≡ true
  pub init_connection_receive_window : is_json s.init_connection_receive_window ≡ true
  pub max_connection_receive_window : is_json s.max_connection_receive_window ≡ true
  pub max_idle_timeout : is_json s.max_idle_timeout ≡ true
  pub keep_alive_period : is_json s.keep_alive_period ≡ true
  pub disable_path_mtu_discovery : is_json s.disable_path_mtu_discovery ≡ true

-- What is kept: the intervals where there is a port, with 30 for a falsy one, and else the defaults.
abbrev pub kept : Hysteria → Hysteria
kept s =
    if truthy s.udphop_port
    then record s {
      udphop_interval_min = or_value s.udphop_interval_min (nat 30);
      udphop_interval_max = or_value s.udphop_interval_max (nat 30);
    }
    else record s {
      udphop_port = str "";
      udphop_interval_min = nat 30;
      udphop_interval_max = nat 30;
    }

hop_back :
    (s : Hysteria)
    → IsJson s
    → truthy s.udphop_port ≡ true
    → hop_of (erase (hop_object s))
      ≡ ok (record {
        port = s.udphop_port;
        interval_min = or_value s.udphop_interval_min (nat 30);
        interval_max = or_value s.udphop_interval_max (nat 30);
      })
hop_back s h y =
    rw
      (truthy-erase_obj (
        entries (
          ("port", s.udphop_port)
          ∷ ("intervalMin", s.udphop_interval_min)
          ∷ ("intervalMax", s.udphop_interval_max)
          ∷ [])))
      (rw (reader-erase _ _ refl) (
        rw
          (
            erase-undefined,
            erase-is_json s.udphop_port h.udphop_port,
            erase-is_json s.udphop_interval_min h.udphop_interval_min,
            erase-is_json s.udphop_interval_max h.udphop_interval_max,
          )
          (rw y)))

read_back :
    (s : Hysteria) (hop : Hop)
    → IsJson s
    → hop_of (erase (if truthy s.udphop_port then hop_object s else undefined)) ≡ ok hop
    → from_json (erase (to_json s))
      ≡ ok (record s {
        udphop_port = hop.port;
        udphop_interval_min = hop.interval_min;
        udphop_interval_max = hop.interval_max;
      })
unfolding from_json to_json
read_back s hop h e =
    let at = λ (k : String). property-given k (fields s) refl in
    rw (open_json-erase _ _ (distinct_keys-given (fields s) refl)) (
      rw
        (
          at "version",
          at "auth",
          at "congestion",
          at "up",
          at "down",
          at "initStreamReceiveWindow",
          at "maxStreamReceiveWindow",
          at "initConnectionReceiveWindow",
          at "maxConnectionReceiveWindow",
          at "maxIdleTimeout",
          at "keepAlivePeriod",
          at "disablePathMTUDiscovery",
          at "udphop",
        )
        (rw e (
          simp (
            default-erase, h.version, h.auth, h.congestion, h.up, h.down,
            h.init_stream_receive_window, h.max_stream_receive_window,
            h.init_connection_receive_window, h.max_connection_receive_window, h.max_idle_timeout,
            h.keep_alive_period, h.disable_path_mtu_discovery,
          ))))

-- `fromJson` gives back the Hysteria settings that `toJson` and JSON wrote, with the port hopping where
-- it has a port, and 30 for a falsy interval, if JSON can write each field.
pub from_json-to_json : (s : Hysteria) → IsJson s → from_json (erase (to_json s)) ≡ ok (kept s)
from_json-to_json s h = elim (Bool-cases (truthy s.udphop_port)) [
  | inl y ↦ rw y (read_back s _ h (rw y (hop_back s h y)))
  | inr n ↦ rw n (read_back s _ h (rw n (rw erase-undefined refl)))
]

-- With no value at all `fromJson` gives the default Hysteria settings.
pub from_json-undefined : from_json undefined ≡ ok new
unfolding from_json
from_json-undefined = rw (open_json-undefined _) refl

abbrev pub part : Part Hysteria
part = record {
  new = new;
  read = from_json;
  write = λ s. ok (to_json s);
  IsJson = IsJson;
  kept = kept;
  back = λ s h. (to_json s, refl, from_json-to_json s h);
  from_undefined = from_json-undefined;
}
