-- ===== src/Outbound/Settings/Freedom.antt =====
-- `Outbound.FreedomSettings` (web/assets/js/model/outbound.js).
use ax_ui.Common.{
  ◌≡◌, refl, true, false, List, [], ◌∷◌, ◌++◌, map, ℕ, Result, ok, ◌>>=◌, Option, none, some, All,
  if◌then◌else◌, erase_idx, Bool-cases, inl, inr,
}
use ax_ui.Js.{
  Values, is_undefined, undefined, Value, str, arr, obj, entries, default, truthy, of_list,
}
use ax_ui.Js.Json.{erase, is_json, default-erase}
use ax_ui.Js.Lookup.{open_json, open_json-erase, erase-undefined, truthy-erase_obj}
use ax_ui.Js.Arrays.{map_array, map_array-map}
use ax_ui.ObjectUtil.{is_empty}
use ax_ui.Outbound.Settings.Fragment
use ax_ui.Outbound.Settings.Noise

-- `none` stands for the `{}` of an outbound without fragment options.
pub record FreedomSettings : Type 0 where
  pub domain_strategy : Value
  pub redirect : Value
  pub fragment : Option Fragment.Fragment
  pub noises : List Noise.Noise

-- The constructor with no argument.
abbrev pub new : FreedomSettings
new = record { domain_strategy = str ""; redirect = str ""; fragment = none; noises = [] }

unfoldable pub fragment_of : Value → Result (Option Fragment.Fragment)
fragment_of v = if truthy v then (do f ← Fragment.from_json v; ok (some f)) else ok none

unfoldable pub noises_of : Value → Result (List Noise.Noise)
noises_of v = if truthy v then map_array (λ i. Noise.from_json) v else ok []

unfoldable pub from_json : Value → Result FreedomSettings
from_json json = do
  at ← open_json json
  fragment ← fragment_of (at "fragment")
  noises ← noises_of (at "noises")
  ok (record {
    domain_strategy = default new.domain_strategy (at "domainStrategy");
    redirect = default new.redirect (at "redirect");
    fragment = fragment;
    noises = noises;
  })

-- `isEmpty(v) ? undefined : v`
abbrev pub nonempty : Value → Value
nonempty v = if is_empty v then undefined else v

unfoldable pub fragment_json : Option Fragment.Fragment → Value
fragment_json none = undefined
fragment_json (some f) = Fragment.to_json f

unfoldable pub noises_json : List Noise.Noise → Value
noises_json [] = undefined
noises_json (n ∷ ns) = arr (of_list (map Noise.to_json (n ∷ ns)))

unfoldable pub to_json : FreedomSettings → Value
to_json s = obj (
    entries (
      ("domainStrategy", nonempty s.domain_strategy)
      ∷ ("redirect", nonempty s.redirect)
      ∷ ("fragment", fragment_json s.fragment)
      ∷ ("noises", noises_json s.noises)
      ∷ []))

-- `addNoise` and `delNoise`.
unfoldable pub add_noise : FreedomSettings → FreedomSettings
add_noise s = record s { noises = s.noises ++ Noise.new ∷ [] }

unfoldable pub del_noise : FreedomSettings → ℕ → FreedomSettings
del_noise s i = record s { noises = erase_idx s.noises i }

abbrev pub FragmentIsJson : Option Fragment.Fragment → Type 0
FragmentIsJson none = Unit
FragmentIsJson (some f) = Fragment.IsJson f

-- Every field holds a value that JSON can write.
pub record IsJson (s : FreedomSettings) : Type 0 where
  pub domain_strategy : is_json s.domain_strategy ≡ true
  pub redirect : is_json s.redirect ≡ true
  pub fragment : FragmentIsJson s.fragment
  pub noises : All Noise.IsJson s.noises

-- What is kept: an empty text for an empty value.
abbrev pub kept : FreedomSettings → FreedomSettings
kept s = record s {
  domain_strategy = if is_empty s.domain_strategy then str "" else s.domain_strategy;
  redirect = if is_empty s.redirect then str "" else s.redirect;
}

nonempty_back :
    (v : Value)
    → is_json v ≡ true
    → default (str "") (erase (nonempty v)) ≡ (if is_empty v then str "" else v)
nonempty_back v h = elim (Bool-cases (is_empty v)) [
  | inl y ↦ rw y (rw erase-undefined)
  | inr n ↦ rw n (default-erase (str "") v h)
]

truthy-fragment : (f : Fragment.Fragment) → truthy (erase (Fragment.to_json f)) ≡ true
unfolding Fragment.to_json
truthy-fragment f = truthy-erase_obj _

fragment_back :
    (f : Option Fragment.Fragment) → FragmentIsJson f → fragment_of (erase (fragment_json f)) ≡ ok f
unfolding fragment_of fragment_json
fragment_back none h = rw erase-undefined
fragment_back (some f) h = rw (truthy-fragment f) (rw (Fragment.from_json-to_json f h))

truthy-erase_arr : (vs : Values) → truthy (erase (arr vs)) ≡ true
unfolding erase
truthy-erase_arr vs = refl

noise_back :
    (n : Noise.Noise)
    → Noise.IsJson n
    → (is_undefined (Noise.to_json n) ≡ false) × (Noise.from_json (erase (Noise.to_json n)) ≡ ok n)
noise_back n h = (unfold Noise.to_json in refl, Noise.from_json-to_json n h)

noises_back :
    (ns : List Noise.Noise) → All Noise.IsJson ns → noises_of (erase (noises_json ns)) ≡ ok ns
unfolding noises_of noises_json
noises_back [] h = rw erase-undefined
noises_back (n ∷ ns) h =
    rw (truthy-erase_arr (of_list (map Noise.to_json (n ∷ ns))))
      (map_array-map Noise.to_json (λ i. Noise.from_json) Noise.IsJson (λ i. noise_back) (n ∷ ns) h)

-- `fromJson` gives back the Freedom settings that `toJson` and JSON wrote, with an empty text for an
-- empty strategy or redirection, if JSON can write each field.
pub from_json-to_json :
    (s : FreedomSettings) → IsJson s → from_json (erase (to_json s)) ≡ ok (kept s)
unfolding from_json to_json
from_json-to_json s h = rw (open_json-erase _ _ refl) (
    rw (fragment_back s.fragment h.fragment, noises_back s.noises h.noises)
      (rw (nonempty_back s.domain_strategy h.domain_strategy, nonempty_back s.redirect h.redirect)))
