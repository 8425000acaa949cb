-- ===== src/Outbound/HysteriaLink.antt =====
-- `Outbound.fromHysteriaLink` (web/assets/js/model/outbound.js): an outbound from a Hysteria link, given what
-- the regular expression and the browser's URLSearchParams find in its text.
use Prim.Native.String
use ax_ui.Common.{
  ◌≡◌, refl, ◌||◌, String, ◌==◌, Option, none, some, Result, ok, ◌>>=◌, if◌then◌else◌,
}
use ax_ui.Js.{Value, undefined, bool, nat, str, to_text}
use ax_ui.Outbound.Settings.Wireguard.{Calls}
use ax_ui.Outbound.Protocol.{of_hysteria}
use ax_ui.Outbound.Stream.Hysteria
use ax_ui.Outbound.Stream.Settings as Stream
use ax_ui.Outbound.Model.{Outbound, create}
use ax_ui.Outbound.ParamLink.{text_or, substring_one}

-- What the regular expression finds; `hash` is the text from `#` on, empty where there is none.
pub record Match : Type 0 where
  pub password : String
  pub address : String
  pub port : String
  pub hash : String

-- The match, where there is one, and `urlParams.get`, where `none` stands for `null`.
pub record Opened : Type 0 where
  pub found : Option Match
  pub get : String → Option String

-- `parseInt` and `decodeURIComponent`.
pub record Reading : Type 0 where
  pub parse_int : String → Value
  pub decode : String → String

-- A field that is set where the link has the parameter.
abbrev pub parsed_or : Reading → Value → Option String → Value
parsed_or calls v none = v
parsed_or calls v (some t) = calls.parse_int t

abbrev pub flag_or : Value → Option String → Value
flag_or v none = v
flag_or v (some t) = bool (t == "true")

-- An end of the interval: that of an old link, or the one of its own, or 30.
abbrev pub interval_of : Reading → (old own : Option String) → Value
interval_of calls none own = calls.parse_int (text_or "30" own)
interval_of calls (some t) own = calls.parse_int t

abbrev pub read_hysteria : Reading → Match → (String → Option String) → Hysteria.Hysteria
read_hysteria calls m get = record Hysteria.new {
  auth = str m.password;
  congestion = str (text_or "" (get "congestion"));
  up = str (text_or "0" (get "up"));
  down = str (text_or "0" (get "down"));
  udphop_port = str (text_or "" (get "udphopPort"));
  udphop_interval_min = interval_of calls (get "udphopInterval") (get "udphopIntervalMin");
  udphop_interval_max = interval_of calls (get "udphopInterval") (get "udphopIntervalMax");
  init_stream_receive_window =
      parsed_or calls Hysteria.new.init_stream_receive_window (get "initStreamReceiveWindow");
  max_stream_receive_window =
      parsed_or calls Hysteria.new.max_stream_receive_window (get "maxStreamReceiveWindow");
  init_connection_receive_window =
      parsed_or calls Hysteria.new.init_connection_receive_window
        (get "initConnectionReceiveWindow");
  max_connection_receive_window =
      parsed_or calls Hysteria.new.max_connection_receive_window (get "maxConnectionReceiveWindow");
  max_idle_timeout = parsed_or calls Hysteria.new.max_idle_timeout (get "maxIdleTimeout");
  keep_alive_period = parsed_or calls Hysteria.new.keep_alive_period (get "keepAlivePeriod");
  disable_path_mtu_discovery =
      flag_or Hysteria.new.disable_path_mtu_discovery (get "disablePathMTUDiscovery");
}

abbrev pub remark_of : Reading → String → Value → String
remark_of calls hash port =
    if hash == ""
    then String.◌++◌ "out-hysteria-" (to_text port)
    else calls.decode (substring_one hash)

abbrev pub read_match :
    Calls → Reading → (String → Option String) → Option Match → Result (Option Outbound)
read_match calls reading get none = ok none
read_match calls reading get (some m) = do
  o ←
      create calls (str (remark_of reading m.hash (reading.parse_int m.port))) (str "hysteria")
        (some (
          of_hysteria
            (record { address = str m.address; port = reading.parse_int m.port; version = nat 2 })))
        (record (Stream.create (str "hysteria") (str "none")) {
          hysteria = read_hysteria reading m get;
        })
        undefined none
  ok (some o)

unfoldable pub from_hysteria_link : Calls → Reading → Opened → Result (Option Outbound)
from_hysteria_link calls reading x = read_match calls reading x.get x.found

-- The parameters with both ends of the interval in place of the one value of an old link.
abbrev pub both_ends : String → (String → Option String) → String → Option String
both_ends t get k =
    if k == "udphopInterval"
    then none
    else if k == "udphopIntervalMin" || k == "udphopIntervalMax"
    then some t
    else get k

ends_back :
    (calls : Calls) (reading : Reading) (get : String → Option String) (found : Option Match)
    (t : String)
    → get "udphopInterval" ≡ some t
    → read_match calls reading get found ≡ read_match calls reading (both_ends t get) found
unfolding create
ends_back calls reading get none t h = refl
ends_back calls reading get (some m) t h = rw h refl

-- An old link, with one interval, is read as the link that has that interval as both ends.
pub from_hysteria_link-both_ends :
    (calls : Calls) (reading : Reading) (x : Opened) (t : String)
    → x.get "udphopInterval" ≡ some t
    → from_hysteria_link calls reading x
      ≡ from_hysteria_link calls reading (record x { get = both_ends t x.get })
unfolding from_hysteria_link
from_hysteria_link-both_ends calls reading x t h = ends_back calls reading x.get x.found t h
