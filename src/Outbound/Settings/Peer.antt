-- ===== src/Outbound/Settings/Peer.antt =====
-- `Outbound.WireguardSettings.Peer` (web/assets/js/model/outbound.js).
use ax_ui.Common.{◌≡◌, refl, true, [], ◌∷◌, Result, ok, ◌>>=◌, if◌then◌else◌}
use ax_ui.Js.{
  undefined, Value, nat, str, arr, obj, strings, entries, default, truthy, or_value, is_string,
}
use ax_ui.Js.Json.{is_json, default-erase}
use ax_ui.Js.Lookup.{open_json, open_json-erase, default-truthy}
use ax_ui.Js.Arrays.{ReadsBack}
use ax_ui.Inbound.Settings.Peer.{if_nonempty, defined}
use ax_ui.Inbound.Settings.Peer.RoundTrip.{psk_back, defined_back, present_or}

pub record Peer : Type 0 where
  pub public_key : Value
  pub psk : Value
  pub allowed_ips : Value
  pub endpoint : Value
  pub keep_alive : Value

-- The constructor with no argument.
abbrev pub new : Peer
new = record {
  public_key = str "";
  psk = str "";
  allowed_ips = arr (strings ("0.0.0.0/0" ∷ "::/0" ∷ []));
  endpoint = str "";
  keep_alive = nat 0;
}

unfoldable pub from_json : Value → Result Peer
from_json json = do
  at ← open_json json
  ok (record {
    public_key = default new.public_key (at "publicKey");
    psk = default new.psk (at "preSharedKey");
    allowed_ips = default new.allowed_ips (at "allowedIPs");
    endpoint = default new.endpoint (at "endpoint");
    keep_alive = default new.keep_alive (at "keepAlive");
  })

-- `v ? v : undefined`
abbrev if_truthy : Value → Value
if_truthy v = if truthy v then v else undefined

abbrev object : Peer → Value → Value
object p psk = obj (
    entries (
      ("publicKey", p.public_key)
      ∷ ("preSharedKey", psk)
      ∷ ("allowedIPs", if_truthy p.allowed_ips)
      ∷ ("endpoint", p.endpoint)
      ∷ ("keepAlive", defined p.keep_alive)
      ∷ []))

unfoldable pub to_json : Peer → Result Value
to_json p = do psk ← if_nonempty p.psk; ok (object p psk)

-- Every field holds a value that JSON can write, and the shared key is a text.
pub record IsJson (p : Peer) : Type 0 where
  pub public_key : is_json p.public_key ≡ true
  pub psk : is_string p.psk ≡ true
  pub allowed_ips : is_json p.allowed_ips ≡ true
  pub endpoint : is_json p.endpoint ≡ true
  pub keep_alive : is_json p.keep_alive ≡ true

-- What is kept: every address for a falsy list, and 0 for an interval that is `null`.
abbrev pub kept : Peer → Peer
kept p = record p {
  allowed_ips = or_value p.allowed_ips new.allowed_ips;
  keep_alive = present_or (nat 0) p.keep_alive;
}

-- A WireGuard peer of an outbound comes back from JSON, with every address for a falsy list, if JSON can
-- write each field and the shared key is a text.
pub from_json-to_json : (p : Peer) → IsJson p → ReadsBack to_json from_json kept p
unfolding from_json to_json
from_json-to_json p h =
    let (psk, w, e) = psk_back p.psk h.psk in
    (
      object p psk,
      rw w,
      refl,
      rw (open_json-erase _ _ refl) (
          rw
            (
              e,
              default-truthy new.allowed_ips p.allowed_ips h.allowed_ips,
              defined_back (nat 0) p.keep_alive h.keep_alive,
            )
            (simp (default-erase, h.public_key, h.endpoint))),
    )
