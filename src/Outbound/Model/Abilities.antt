-- ===== src/Outbound/Model/Abilities.antt =====
-- What an outbound can enable (web/assets/js/model/outbound.js).
use ax_ui.Common.{
  ◌≡◌, [], ◌∷◌, refl, true, false, arith, eq_iff, ◌==◌, ap, ok, Holds, Holds-elim, Holds-bind_any,
  String,
}
use ax_ui.Js.{Value, undefined, str, obj, property, truthy, equals_text}
use ax_ui.Js.Given.{property-given}
use ax_ui.Outbound.Settings.Wireguard.{Calls}
use ax_ui.Outbound.Model.{
  Outbound, can_enable_stream, can_enable_tls, can_enable_reality, can_enable_mux, among,
  mux_protocols, fields, to_json, stream_json, settings_json,
}

not_both : (s t : String) → (s == t) ≡ true → (s == "hysteria") ≡ (t == "hysteria")
not_both s t h = ap (λ u. u == "hysteria") ((eq_iff s t).0 h)

reality_protocol :
    (v : Value) → among ("vless" ∷ "trojan" ∷ []) v ≡ true → equals_text v "hysteria" ≡ false
reality_protocol (str s) h = ground (arith, not_both s "vless", not_both s "trojan")
reality_protocol _ h = cc

-- Where Reality can be enabled, TLS can be, and the transport can be set.
pub can_enable_reality-tls :
    (o : Outbound)
    → can_enable_reality o ≡ true
    → (can_enable_tls o ≡ true) × (can_enable_stream o ≡ true)
can_enable_reality-tls o h = ground (arith, reality_protocol o.protocol)

-- A property of a value that is an object.
abbrev pub member : String → Value → Value
member k (obj ps) = property k ps
member k v = undefined

no_mux :
    (calls : Calls) (o : Outbound)
    → truthy o.mux.enabled ≡ false
    → Holds (λ v. member "mux" v ≡ undefined) (to_json calls o)
unfolding to_json
no_mux calls o h = Holds-bind_any _ (stream_json o) _ (λ stream.
    Holds-bind_any _ (settings_json calls o.settings) _
      (λ settings. rw (property-given "mux" (fields o settings stream) refl) (rw h refl)))

refused-disabled :
    (o p : Outbound)
    → can_enable_mux o ≡ ok (p, false)
    → among mux_protocols o.protocol ≡ true
    → truthy p.mux.enabled ≡ false
unfolding can_enable_mux
refused-disabled o p h a = ground arith

-- Where the protocol could be multiplexed and `canEnableMux` still refuses, which is for a flow or for
-- XHTTP, the JSON of the outbound afterwards has no multiplexing, whatever was set before.
pub can_enable_mux-to_json :
    (calls : Calls) (o p : Outbound) (v : Value)
    → can_enable_mux o ≡ ok (p, false)
    → among mux_protocols o.protocol ≡ true
    → to_json calls p ≡ ok v
    → member "mux" v ≡ undefined
can_enable_mux-to_json calls o p v h a e =
    Holds-elim _ _ e (no_mux calls p (refused-disabled o p h a))
