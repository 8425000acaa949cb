-- ===== src/Outbound/Settings/Wireguard/RoundTrip.antt =====
-- The WireGuard settings of an outbound through `toJson`, JSON and `fromJson`
-- (web/assets/js/model/outbound.js).
use ax_ui.Common.{
  ◌≡◌, refl, true, false, List, [], ◌∷◌, map, String, ok, All, if◌then◌else◌, Bool-cases, inl, inr,
  ap, sym, ◌∙◌, ◌==◌, eq_iff,
}
use ax_ui.Js.{
  undefined, Value, nat, str, arr, nil, cons, strings, default, join_text, join_rest, item_text,
  is_string,
}
use ax_ui.Js.Json.{erase, is_json, is_json_values, default-erase, erase-is_json}
use ax_ui.Js.Lookup.{open_json-erase, erase-undefined}
use ax_ui.Js.Arrays.{map_array-erase}
use ax_ui.Js.Elements.{erase-strings}
use ax_ui.Js.Text.{split, join-split}
use ax_ui.Inbound.Settings.Peer.RoundTrip.{defined_back, present_or}
use ax_ui.Outbound.Settings.Peer
use ax_ui.Outbound.Settings.Wireguard.{
  Calls, WireguardSettings, derived, joined, create, from_json, to_json, address_json,
  reserved_json, is_strategy, object, numbers, comma,
}

-- A text that `Number` reads and that is written as it stands.
abbrev pub IsNumeral : (String → Value) → String → Type 0
IsNumeral number t = (is_json (number t) ≡ true) × (item_text (number t) ≡ t)

-- Every field holds a value that JSON can write; the public key is that of the secret key, the addresses
-- are a text, and the reserved bytes are a text of numbers between commas, or empty.
pub record IsJson (calls : Calls) (s : WireguardSettings) : Type 0 where
  pub mtu : is_json s.mtu ≡ true
  pub secret_key : is_json s.secret_key ≡ true
  pub pub_key : derived calls s.secret_key ≡ ok s.pub_key
  pub address : is_string s.address ≡ true
  pub workers : is_json s.workers ≡ true
  pub domain_strategy : is_json s.domain_strategy ≡ true
  pub reserved :
      (t : String) × (s.reserved ≡ str t)
      × ((t == "") ≡ false → All (IsNumeral calls.number) (split comma t))
  pub peers : All Peer.IsJson s.peers
  pub no_kernel_tun : is_json s.no_kernel_tun ≡ true

-- What is kept: 1420 and 2 for an MTU and workers that are `null`, no strategy that Xray does not know,
-- and what is kept of each peer.
abbrev pub kept : WireguardSettings → WireguardSettings
kept s = record s {
  mtu = present_or (nat 1420) s.mtu;
  workers = present_or (nat 2) s.workers;
  domain_strategy = if is_strategy s.domain_strategy then s.domain_strategy else str "";
  peers = map Peer.kept s.peers;
}

address_back :
    (v : Value)
    → is_string v ≡ true
    → (w : Value) × (address_json v ≡ ok w)
      × (joined (default (arr (cons (str "") nil)) (erase w)) ≡ v)
unfolding address_json joined
address_back (str s) h = elim (Bool-cases (s == "")) [
  | inl y ↦ (arr nil, rw y, unfold erase join_text in ap str (sym ((eq_iff s "").0 y)))
  | inr n ↦ (
    arr (strings (split comma s)),
    rw n,
    rw (erase-strings (split comma s)) (ap str (join-split comma s)),
  )
]
address_back _ h = cc

join_rest-numbers :
    (number : String → Value) (sep : String) (ts : List String)
    → All (IsNumeral number) ts
    → join_rest sep (numbers number ts) ≡ join_rest sep (strings ts)
unfolding join_text
join_rest-numbers number sep [] h = refl
join_rest-numbers number sep (t ∷ ts) h = rw (h.0.1, join_rest-numbers number sep ts h.1)

numbers_join :
    (number : String → Value) (sep : String) (ts : List String)
    → All (IsNumeral number) ts
    → join_text sep (numbers number ts) ≡ join_text sep (strings ts)
unfolding join_text
numbers_join number sep [] h = refl
numbers_join number sep (t ∷ ts) h = rw (h.0.1, join_rest-numbers number sep ts h.1)

numbers_json :
    (number : String → Value) (ts : List String)
    → All (IsNumeral number) ts
    → is_json_values (numbers number ts) ≡ true
unfolding is_json
numbers_json number [] h = refl
numbers_json number (t ∷ ts) h = rw (h.0.0, numbers_json number ts h.1)

erase-numbers :
    (number : String → Value) (ts : List String)
    → All (IsNumeral number) ts
    → erase (arr (numbers number ts)) ≡ arr (numbers number ts)
unfolding is_json
erase-numbers number ts h = erase-is_json _ (numbers_json number ts h)

reserved_back :
    (number : String → Value) (t : String)
    → ((t == "") ≡ false → All (IsNumeral number) (split comma t))
    → (w : Value) × (reserved_json number (str t) ≡ ok w)
      × (joined (default (str "") (erase w)) ≡ str t)
unfolding reserved_json joined
reserved_back number t h = elim (Bool-cases (t == "")) [
  | inl y ↦ (undefined, rw y, unfold erase in ap str (sym ((eq_iff t "").0 y)))
  | inr n ↦ (
    arr (numbers number (split comma t)),
    rw n,
    rw (erase-numbers number (split comma t) (h n))
        (ap str (numbers_join number "," (split comma t) (h n) ∙ join-split comma t)),
  )
]

strategy_back :
    (v : Value)
    → is_json v ≡ true
    → default (str "") (erase (if is_strategy v then v else undefined))
      ≡ (if is_strategy v then v else str "")
strategy_back v h = elim (Bool-cases (is_strategy v)) [
  | inl y ↦ rw y (default-erase (str "") v h)
  | inr n ↦ rw n (rw erase-undefined)
]

-- WireGuard settings of an outbound come back from JSON with their public key derived again, without a
-- strategy that Xray does not know, and with what is kept of each peer, if JSON can write each field, the
-- public key is that of the secret one, the addresses are a text, and the reserved bytes are a text of
-- numbers that `Number` reads as they stand, or empty.
pub from_json-to_json_wireguard_outbound :
    (calls : Calls) (s : WireguardSettings)
    → IsJson calls s
    → (v : Value) × (to_json calls s ≡ ok v) × (from_json calls (erase v) ≡ ok (kept s))
unfolding from_json to_json create
from_json-to_json_wireguard_outbound calls s h =
    let (address, wa, ra) = address_back s.address h.address in
    let (t, et, ns) = h.reserved in
    let (reserved, wr, rr) = reserved_back calls.number t ns in
    let (vs, w, r) =
      map_array-erase Peer.to_json (λ i. Peer.from_json) Peer.kept Peer.IsJson
        (λ i. Peer.from_json-to_json) s.peers h.peers in
    (
      object s address reserved vs,
      rw wa (rw et (rw wr (rw w))),
      rw (open_json-erase _ _ refl) (
          rw (r, default-erase (str "") s.secret_key h.secret_key)
            (rw
              (
                h.pub_key,
                ra,
                rr ∙ sym et,
                defined_back (nat 1420) s.mtu h.mtu,
                defined_back (nat 2) s.workers h.workers,
                strategy_back s.domain_strategy h.domain_strategy,
              )
              (simp (default-erase, h.no_kernel_tun)))),
    )
