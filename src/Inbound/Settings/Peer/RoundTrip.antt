-- ===== src/Inbound/Settings/Peer/RoundTrip.antt =====
-- A WireGuard peer completed twice, and through `toJson`, JSON and `fromJson`
-- (web/assets/js/model/inbound.js).
use Prim.Native.String
use mathlib.Core.Path.{ap₂}
use text.Mathlib.TextLemmas.{cons-append}
use ax_ui.Common.{
  ◌≡◌, refl, sym, if◌then◌else◌, eq_iff, ap, true, List, [], ◌∷◌, map, ok, traverse, String, ◌==◌,
  Bool-cases, inl, inr, arith,
}
use ax_ui.Js.{
  Value, Values, undefined, null, bool, num, nat, str, arr, obj, nil, cons, default, of_list,
  elements, strings, is_string,
}
use ax_ui.Js.Json.{erase, is_json, erase-is_json, erase_optional}
use ax_ui.Js.Elements.{erase-strings}
use ax_ui.Js.Lookup.{open_json-erase, erase-undefined}
use ax_ui.Js.Joined.{has_char}
use ax_ui.Js.Arrays.{ReadsBack}
use ax_ui.Inbound.Settings.Peer.{
  KeyPair, Peer, has_slash, complete_ip, complete, complete_all, create, from_json, if_nonempty,
  defined, object, to_json, IsJson,
}

has_slash-append : (s : String) → has_slash (String.◌++◌ s "/32") ≡ true
has_slash-append String.[] = refl
has_slash-append (String.◌∷◌ c s) = rw (cons-append c s "/32") (ground (arith, has_slash-append s))

-- Completing an address twice is completing it once.
complete_ip_idem : (s : String) → complete_ip (complete_ip s) ≡ complete_ip s
unfolding complete_ip
complete_ip_idem s = ground (arith, has_slash-append s)

-- The address as it is meant: one that is empty or has a slash in it as it is, any other one with `/32`.
unfoldable pub with_prefix : String → String
with_prefix s = if s == "" then "" else if has_char "/" s then s else String.◌++◌ s "/32"

has_slash-has_char : (s : String) → has_slash s ≡ has_char "/" s
unfolding has_char
has_slash-has_char String.[] = refl
has_slash-has_char (String.◌∷◌ c s) = ground (arith, has_slash-has_char s)

complete_ip_lem : (s : String) → complete_ip s ≡ with_prefix s
unfolding complete_ip with_prefix
complete_ip_lem s = ground (arith, eq_iff s "", has_slash-has_char s)

traverse-strings :
    (ips : List String)
    → (vs : List Value) × (traverse complete (elements (strings ips)) ≡ ok vs)
      × (of_list vs ≡ strings (map complete_ip ips))
unfolding traverse
traverse-strings [] = ([], refl, refl)
traverse-strings (s ∷ ips) =
    let (vs, w, e) = traverse-strings ips in
    (str (complete_ip s) ∷ vs, rw w refl, ap (cons (str (complete_ip s))) e)

complete_all-strings :
    (ips : List String)
    → complete_all (arr (strings ips)) ≡ ok (arr (strings (map complete_ip ips)))
complete_all-strings ips = let (vs, w, e) = traverse-strings ips in rw w (ap (λ l. ok (arr l)) e)

map_idem : (ips : List String) → map complete_ip (map complete_ip ips) ≡ map complete_ip ips
map_idem [] = refl
map_idem (s ∷ ips) = ap₂ ◌∷◌ (complete_ip_idem s) (map_idem ips)

-- A list of addresses with the prefix lengths put in.
abbrev texts : Values → Values
texts nil = nil
texts (cons (str s) vs) = cons (str (with_prefix s)) (texts vs)
texts (cons v vs) = cons v (texts vs)

abbrev completed : Value → Value
completed (arr vs) = arr (texts vs)
completed v = v

-- A value, or another one for `null` and `undefined`.
abbrev pub present_or : Value → Value → Value
present_or d null = d
present_or d undefined = d
present_or d v = v

-- What is kept of a peer: complete addresses, and 0 for an interval that is `null`.
abbrev pub kept : Peer → Peer
kept p = record p {
  allowed_ips = completed p.allowed_ips;
  keep_alive = present_or (nat 0) p.keep_alive;
}

pub psk_back :
    (v : Value)
    → is_string v ≡ true
    → (w : Value) × (if_nonempty v ≡ ok w) × (default (str "") (erase w) ≡ v)
unfolding erase
psk_back (str s) h = elim (Bool-cases (s == "")) [
  | inl y ↦ (undefined, rw y, ap str (sym ((eq_iff s "").0 y)))
  | inr n ↦ (str s, rw n, refl)
]
psk_back _ h = cc

-- An optional number comes back, or the default for `null`.
pub defined_back : (d v : Value) → is_json v ≡ true → default d (erase (defined v)) ≡ present_or d v
defined_back d null h = rw erase-undefined
defined_back d undefined h = rw erase-undefined
defined_back d (bool b) h = ap (default d) (erase-is_json (bool b) h)
defined_back d (num z) h = ap (default d) (erase-is_json (num z) h)
defined_back d (str s) h = ap (default d) (erase-is_json (str s) h)
defined_back d (arr vs) h = ap (default d) (erase-is_json (arr vs) h)
defined_back d (obj ps) h = ap (default d) (erase-is_json (obj ps) h)

completed-strings :
    (ips : List String) → completed (arr (strings ips)) ≡ arr (strings (map complete_ip ips))
completed-strings ips = ap arr (texts-strings ips)
  where
    texts-strings : (ips : List String) → texts (strings ips) ≡ strings (map complete_ip ips)
    texts-strings [] = refl
    texts-strings (s ∷ ips) = ap₂ (λ t. cons (str t)) (sym (complete_ip_lem s)) (texts-strings ips)

read_back :
    (pair : KeyPair) (p : Peer) (psk : Value) (ips : List String)
    → IsJson p
    → default (str "") (erase psk) ≡ p.psk
    → p.allowed_ips ≡ arr (strings ips)
    → from_json pair (erase (object p psk (arr (strings (map complete_ip ips))))) ≡ ok (kept p)
unfolding from_json create
read_back pair p psk ips h e a = rw (open_json-erase _ _ refl) (
    rw (erase-strings (map complete_ip ips)) (
      rw (complete_all-strings (map complete_ip ips)) (
        rw (map_idem ips) (
          rw
            (
              erase-is_json p.public_key h.public_key,
              h.has_public,
              e,
              defined_back (nat 0) p.keep_alive h.keep_alive,
              erase_optional p.private_key h.private_key,
            )
            (rw (a, completed-strings ips))))))

-- A WireGuard peer comes back from JSON with `/32` after each address that is not empty and has no slash
-- in it, with every other address as it was, and with 0 for an interval that is `null`,
-- whatever the key pair drawn, if its public key is not empty, its addresses are a list of texts, its
-- shared key is a text, and JSON can write the other fields (or the private key is `undefined`).
pub from_json-to_json_peer :
    (pair : KeyPair) (p : Peer) → IsJson p → ReadsBack to_json (from_json pair) kept p
unfolding to_json
from_json-to_json_peer pair p h =
    let (ips, a) = h.allowed_ips in
    let (psk, w, e) = psk_back p.psk h.psk in
    (
      object p psk (arr (strings (map complete_ip ips))),
      rw a (rw (complete_all-strings ips) (rw w)),
      refl,
      read_back pair p psk ips h e a,
    )
