-- ===== src/Inbound/Settings/Vless.antt =====
-- `Inbound.VLESSSettings` (web/assets/js/model/inbound.js).
use ax_ui.Common.{
  ◌≡◌, refl, true, false, ℕ, List, [], ◌∷◌, ◌++◌, map, Result, ok, ◌>>=◌, traverse, All, Bool,
  if◌then◌else◌, erase_idx, String,
}
use ax_ui.Js.{
  Value, undefined, nat, str, arr, obj, nil, cons, default, or_value, of_list, truthy, equals_text,
}
use ax_ui.Js.Json.{erase, is_json, is_optional, erase-is_json}
use ax_ui.Js.Lookup.{open_json, open_json-erase, erase-undefined, default-truthy, optional-truthy}
use ax_ui.Js.Arrays.{map_array, map_array-erase, or_value-erase_arr}
use ax_ui.Common.{◌&&◌, not, leb, length, any, Bool-cases, inl, inr, arith}
use ax_ui.Js.{elements}
use ax_ui.Js.Elements.{four_or_more, leb-four_or_more}
use ax_ui.Js.Given.{given, property-given, distinct_keys-given}
use ax_ui.Inbound.Clients.Vless
use ax_ui.Inbound.Fallback

pub record VlessSettings : Type 0 where
  pub vlesses : List Vless.Vless
  pub decryption : Value
  pub encryption : Value
  pub fallbacks : List Fallback.Fallback
  pub selected_auth : Value
  pub testseed : Value

abbrev pub default_testseed : Value
default_testseed = arr (cons (nat 900) (cons (nat 500) (cons (nat 900) (cons (nat 256) nil))))

-- An array of at least four elements.
abbrev pub has_four : Value → Bool
has_four (arr vs) = leb 4 (length (elements vs))
has_four v = false

-- `json.testseed && Array.isArray(json.testseed) && json.testseed.length >= 4`
abbrev testseed_of : Value → Value
testseed_of v = if has_four v then v else default_testseed

unfoldable pub from_json : (ℕ → Vless.Random) → Value → Result VlessSettings
from_json random json = do
  at ← open_json json
  vlesses ← map_array (λ i. Vless.from_json (random i)) (or_value (at "clients") (arr nil))
  fallbacks ← Fallback.from_json (or_value (at "fallbacks") (arr nil))
  ok (record {
    vlesses = vlesses;
    decryption = default (str "none") (at "decryption");
    encryption = default (str "none") (at "encryption");
    fallbacks = fallbacks;
    selected_auth = at "selectedAuth";
    testseed = testseed_of (at "testseed");
  })

-- `vless.flow && vless.flow !== ''` for some client.
abbrev pub has_flow : VlessSettings → Bool
has_flow s = any (λ c. truthy c.flow && not (equals_text c.flow "")) s.vlesses

abbrev is_cons : List Fallback.Fallback → Bool
is_cons [] = false
is_cons (f ∷ fs) = true

-- The properties of the object, each with the condition under which `toJson` sets it.
abbrev fields : VlessSettings → List Value → List Value → List (Bool × String × Value)
fields s clients fallbacks =
    (true, "clients", arr (of_list clients))
    ∷ (truthy s.decryption, "decryption", s.decryption)
    ∷ (truthy s.encryption, "encryption", s.encryption)
    ∷ (is_cons s.fallbacks, "fallbacks", arr (of_list fallbacks))
    ∷ (truthy s.selected_auth, "selectedAuth", s.selected_auth)
    ∷ (has_flow s && has_four s.testseed, "testseed", s.testseed)
    ∷ []

-- The test seed is written only if a client has a flow. (The length test is made on an array.)
unfoldable pub to_json : VlessSettings → Result Value
to_json s = do
  clients ← traverse Vless.to_json s.vlesses
  fallbacks ← traverse Fallback.to_json s.fallbacks
  ok (obj (given (fields s clients fallbacks)))

-- `addFallback` and `delFallback`.
unfoldable pub add_fallback : VlessSettings → VlessSettings
add_fallback s = record s { fallbacks = s.fallbacks ++ Fallback.new ∷ [] }

unfoldable pub del_fallback : VlessSettings → ℕ → VlessSettings
del_fallback s i = record s { fallbacks = erase_idx s.fallbacks i }

-- Every field holds a value that JSON can write; the selected authentication may be `undefined`.
pub record IsJson (s : VlessSettings) : Type 0 where
  pub vlesses : All Vless.IsJson s.vlesses
  pub decryption : is_json s.decryption ≡ true
  pub encryption : is_json s.encryption ≡ true
  pub fallbacks : All Fallback.IsJson s.fallbacks
  pub selected_auth : is_optional s.selected_auth ≡ true
  pub testseed : is_json s.testseed ≡ true

-- A test seed is an array of four elements or more.
abbrev has_seed : Value → Bool
has_seed (arr vs) = four_or_more vs
has_seed _ = false

-- What is kept: `none` for a falsy encryption, nothing for a falsy selection, and the test seed if it
-- has at least four elements and a client has a flow, or else the default one.
abbrev pub kept : VlessSettings → VlessSettings
kept s = record {
  vlesses = map Vless.kept s.vlesses;
  decryption = or_value s.decryption (str "none");
  encryption = or_value s.encryption (str "none");
  fallbacks = map Fallback.kept s.fallbacks;
  selected_auth = or_value s.selected_auth undefined;
  testseed = if has_flow s && has_seed s.testseed then s.testseed else default_testseed;
}

has_four-has_seed : (v : Value) → has_four v ≡ has_seed v
has_four-has_seed (arr vs) = leb-four_or_more vs
has_four-has_seed _ = refl

-- The list of fallbacks, written if it is not empty.
fallbacks_back :
    (fs : List Fallback.Fallback)
    → All Fallback.IsJson fs
    → (vs : List Value) × (traverse Fallback.to_json fs ≡ ok vs)
      × (Fallback.from_json
            (or_value (erase (if is_cons fs then arr (of_list vs) else undefined)) (arr nil))
          ≡ ok (map Fallback.kept fs))
fallbacks_back [] h = ([], unfold traverse in refl, rw erase-undefined Fallback.from_json_empty)
fallbacks_back (f ∷ fs) h =
    let (vs, w, r) = Fallback.from_json-to_json (f ∷ fs) h in
    (vs, w, rw (or_value-erase_arr (of_list vs) (arr nil)) r)

testseed_back :
    (b : Bool) (v : Value)
    → is_json v ≡ true
    → testseed_of (erase (if b && has_four v then v else undefined))
      ≡ (if b && has_seed v then v else default_testseed)
testseed_back b v h = rw (← has_four-has_seed v) (elim (Bool-cases (b && has_four v)) [
  | inl y ↦ rw y (rw (erase-is_json v h) (ground (arith, y)))
  | inr n ↦ rw n (rw erase-undefined)
])

-- VLESS settings come back from JSON with each client as it was, `none` for a falsy encryption or
-- decryption, `undefined` for a falsy selection, 0 for an `xver` of a fallback that is no integer, and
-- the test seed where a client has a flow and the seed four elements, or else the default one, if JSON
-- can write each field (but `xver`).
pub from_json-to_json_vless :
    (random : ℕ → Vless.Random) (s : VlessSettings)
    → IsJson s
    → (v : Value) × (to_json s ≡ ok v) × (from_json random (erase v) ≡ ok (kept s))
unfolding from_json to_json
from_json-to_json_vless random s h =
    let (vs, w, r) =
      (map_array-erase Vless.to_json (λ i. Vless.from_json (random i)) Vless.kept Vless.IsJson
        (λ i. Vless.from_json-to_json (random i)) s.vlesses h.vlesses) in
    let (fs, w', r') = fallbacks_back s.fallbacks h.fallbacks in
    let at = λ (k : String). property-given k (fields s vs fs) refl in
    (
      obj (given (fields s vs fs)),
      rw (w, w'),
      rw (open_json-erase _ _ (distinct_keys-given (fields s vs fs) refl)) (
          rw
            (
              at "clients",
              at "decryption",
              at "encryption",
              at "fallbacks",
              at "selectedAuth",
              at "testseed",
            )
            (rw (
              or_value-erase_arr (of_list vs) (arr nil),
              r,
              r',
              default-truthy (str "none") s.decryption h.decryption,
              default-truthy (str "none") s.encryption h.encryption,
              optional-truthy s.selected_auth h.selected_auth,
              testseed_back (has_flow s) s.testseed h.testseed,
            ))),
    )
