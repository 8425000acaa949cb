-- ===== src/Inbound/Model/Sync.antt =====
-- The protocol of an inbound and the class of its settings (web/assets/js/model/inbound.js).
use ax_ui.Common.{◌≡◌, refl, ap, arith, ok, some, none, Option, Result}
use ax_ui.Common.{Holds, Holds-elim, Holds-intro, Holds-bind, Holds-bind_any}
use ax_ui.Js.{Value, undefined, null, bool, num, str, arr, obj, default}
use ax_ui.Js.Lookup.{open_json}
use ax_ui.Inbound.Sniffing
use ax_ui.Stream.Settings as Stream
use ax_ui.Inbound.Protocol
use ax_ui.Inbound.Protocol.{
  Settings, Protocol, class_of, protocol_of, get_settings, new_settings, read, when_known,
}
use ax_ui.Inbound.Model.{Inbound, Random, from_json, set_protocol, settings_or_new}

-- The class of the settings is the one that the protocol selects, or both are missing.
abbrev pub class_of_option : Option Settings → Option Protocol
class_of_option none = none
class_of_option (some s) = some (class_of s)

abbrev pub InSync : Inbound → Type 0
InSync i = class_of_option i.settings ≡ protocol_of i.protocol

class_of-new_settings :
    (random : Protocol.Random) (p : Protocol) (s : Settings)
    → new_settings random p ≡ ok s
    → class_of s ≡ p
class_of-new_settings random p s h = ground arith

class_of-read :
    (random : Protocol.Random) (json : Value) (p : Protocol) (s : Settings)
    → read random json p ≡ ok s
    → class_of s ≡ p
class_of-read random json p s h = ground arith

-- What a value selects, if it selects anything.
when_known-class_of :
    (o : Option Protocol) (f : Protocol → Result Settings)
    → ((p : Protocol) (s : Settings) → f p ≡ ok s → class_of s ≡ p)
    → Holds (λ s. class_of_option s ≡ o) (when_known o f)
when_known-class_of none f law = refl
when_known-class_of (some p) f law =
    Holds-bind _ _ (f p) _ (Holds-intro _ (f p) (law p)) (λ s e. ap some e)

get_settings-class_of :
    (random : Protocol.Random) (v : Value)
    → Holds (λ s. class_of_option s ≡ protocol_of v) (get_settings random v)
unfolding get_settings
get_settings-class_of random v =
    when_known-class_of (protocol_of v) (new_settings random) (class_of-new_settings random)

settings_or_new-class_of :
    (random : Protocol.Random) (v : Value) (s : Option Settings)
    → class_of_option s ≡ protocol_of v
    → Holds
        (λ t. class_of_option t ≡ protocol_of (default (str "vless") v))
        (settings_or_new random (default (str "vless") v) s)
settings_or_new-class_of random v none h = get_settings-class_of random (default (str "vless") v)
settings_or_new-class_of random undefined (some s) h = cc
settings_or_new-class_of random null (some s) h = h
settings_or_new-class_of random (bool b) (some s) h = h
settings_or_new-class_of random (num z) (some s) h = h
settings_or_new-class_of random (str k) (some s) h = h
settings_or_new-class_of random (arr vs) (some s) h = h
settings_or_new-class_of random (obj ps) (some s) h = h

-- The setter of the protocol, unless the key generator throws, leaves an inbound whose settings are of
-- the class that its protocol selects, or `null` where it selects none.
pub set_protocol-InSync :
    (random : Protocol.Random) (v : Value) (i j : Inbound)
    → set_protocol random v i ≡ ok j
    → InSync j
unfolding set_protocol
set_protocol-InSync random v i j e =
    Holds-elim InSync _ e
      (Holds-bind _ _ (get_settings random v) _ (get_settings-class_of random v) (λ s e. e))

parsed-InSync : (random : Random) (json : Value) → Holds InSync (from_json random json)
unfolding from_json Protocol.from_json
parsed-InSync random json = Holds-bind_any _ (open_json json) _ (λ at.
    Holds-bind _ _ (Protocol.from_json random.settings (at "protocol") (at "settings")) _
      (when_known-class_of (protocol_of (at "protocol")) (read random.settings (at "settings"))
        (class_of-read random.settings (at "settings")))
      (λ settings e.
        Holds-bind_any _ (Stream.from_json random.stream (at "streamSettings")) _ (λ stream.
          Holds-bind_any _ (Sniffing.from_json (at "sniffing")) _ (λ sniffing.
            Holds-bind _ _
              (settings_or_new random.settings (default (str "vless") (at "protocol")) settings) _
              (settings_or_new-class_of random.settings (at "protocol") settings e) (λ own e. e)))))

-- Whatever JSON `fromJson` reads, an inbound that it gives has settings of the class that its protocol
-- selects, or `null` where it selects none.
pub from_json-InSync :
    (random : Random) (json : Value) (i : Inbound) → from_json random json ≡ ok i → InSync i
from_json-InSync random json i e = Holds-elim InSync _ e (parsed-InSync random json)
