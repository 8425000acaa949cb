-- ===== src/Inbound/Model/RoundTrip.antt =====
-- `Inbound` through `toJson`, JSON and `fromJson` (web/assets/js/model/inbound.js).
use ax_ui.Common.{◌≡◌, refl, true, some, ok, if◌then◌else◌}
use ax_ui.Js.{Value, str}
use ax_ui.Js.Json.{erase, is_json, default-erase}
use ax_ui.Js.Part.{part_back}
use ax_ui.Js.Lookup.{open_json-erase}
use ax_ui.Inbound.Protocol
use ax_ui.Inbound.Protocol.RoundTrip as ProtocolTrip
use ax_ui.Inbound.Sniffing
use ax_ui.Inbound.Model.{Inbound, Random, from_json, to_json, object, writes_stream}
use ax_ui.Stream.Settings as Stream
use ax_ui.Stream.Settings.RoundTrip as StreamTrip

-- JSON can write the inbound; its settings `s` are of the class that its protocol selects.
pub record IsJson (random : Random) (s : Protocol.Settings) (i : Inbound) : Type 0 where
  pub port : is_json i.port ≡ true
  pub listen : is_json i.listen ≡ true
  pub protocol : i.protocol ≡ str (Protocol.name_of (Protocol.class_of s))
  pub settings : i.settings ≡ some s
  pub settings_json : ProtocolTrip.IsJson random.settings s
  pub stream : writes_stream i ≡ true → StreamTrip.IsJson i.stream
  pub tag : is_json i.tag ≡ true
  pub sniffing : Sniffing.IsJson i.sniffing
  pub client_stats : is_json i.client_stats ≡ true

-- What is kept of the inbound: of its settings, of its sniffing options, and of the transport settings
-- if they are written; else there are new ones.
abbrev pub kept : Random → Protocol.Settings → Inbound → Inbound
kept random s i = record i {
  settings = some (ProtocolTrip.kept random.settings s);
  stream =
      if writes_stream i then StreamTrip.kept random.stream i.stream else Stream.new random.stream;
  sniffing = Sniffing.kept i.sniffing;
}

read_back :
    (random : Random) (s : Protocol.Settings) (v : Value)
    → Protocol.read random.settings (erase v) (Protocol.class_of s)
      ≡ ok (ProtocolTrip.kept random.settings s)
    → Protocol.from_json random.settings (str (Protocol.name_of (Protocol.class_of s))) (erase v)
      ≡ ok (some (ProtocolTrip.kept random.settings s))
unfolding Protocol.from_json
read_back random s v e = rw (ProtocolTrip.protocol_of-name_of (Protocol.class_of s)) (rw e refl)

-- The protocol of the inbound, after JSON, selects the class of its settings.
settings_back :
    (random : Random) (s : Protocol.Settings) (i : Inbound) (v : Value)
    → IsJson random s i
    → Protocol.read random.settings (erase v) (Protocol.class_of s)
      ≡ ok (ProtocolTrip.kept random.settings s)
    → Protocol.from_json random.settings (erase i.protocol) (erase v)
      ≡ ok (some (ProtocolTrip.kept random.settings s))
unfolding erase
settings_back random s i v h e = rw h.protocol (read_back random s v e)

protocol_is_json :
    (random : Random) (s : Protocol.Settings) (i : Inbound)
    → IsJson random s i
    → is_json i.protocol ≡ true
unfolding is_json
protocol_is_json random s i h = rw h.protocol refl

-- An inbound comes back from JSON with the same protocol, with what its class keeps of the settings
-- and of the sniffing options, and with its transport settings where the protocol has any or there
-- are socket options, or else new ones, if its settings are of the class that the protocol selects
-- and JSON can write the parts in use, as the conditions of those parts say.
pub from_json-to_json_inbound :
    (random : Random) (s : Protocol.Settings) (i : Inbound)
    → IsJson random s i
    → (v : Value) × (to_json i ≡ ok v) × (from_json random (erase v) ≡ ok (kept random s i))
unfolding from_json to_json
from_json-to_json_inbound random s i h =
    let (settings, w, r) =
      ProtocolTrip.from_json-to_json_settings random.settings s h.settings_json in
    let (stream, w', r') =
      part_back (writes_stream i) (Stream.to_json i.stream) (Stream.from_json random.stream)
        (StreamTrip.kept random.stream i.stream) (Stream.new random.stream)
        (λ e. StreamTrip.from_json-to_json random.stream i.stream (h.stream e))
        (StreamTrip.from_json-undefined random.stream) in
    (
      object i settings stream,
      rw w' (rw h.settings (rw w refl)),
      rw (open_json-erase _ _ refl) (
          rw
            (
              settings_back random s i settings h r,
              r',
              Sniffing.from_json-to_json i.sniffing h.sniffing,
            )
            (simp (
              default-erase,
              protocol_is_json random s i h,
              h.port,
              h.listen,
              h.tag,
              h.client_stats,
            ))),
    )
