-- ===== src/Js/Given.antt =====
-- An object literal with some properties set under a condition.
use ax_ui.Common.{
  ◌≡◌, refl, Bool, true, false, not, ◌&&◌, ◌||◌, String, List, [], ◌∷◌, ◌==◌, if◌then◌else◌, arith,
  eq_iff, Result, ◌>>=◌, ap, ◌∙◌,
}
use mathlib.Core.Path.{fun_ext}
use ax_ui.Js.Json.{erase}
use ax_ui.Js.Lookup.{open_json, open_json-erase}
use ax_ui.Js.{Value, undefined, obj, Props, end, prop, property, has_property, distinct_keys}

-- A property is there if its condition holds.
unfoldable pub given : List (Bool × String × Value) → Props
given [] = end
given ((b, k, v) ∷ fs) = let rest = given fs in if b then prop k v rest else rest

abbrev pub given_value : String → List (Bool × String × Value) → Value
given_value k [] = undefined
given_value k ((b, j, v) ∷ fs) = if j == k then (if b then v else undefined) else given_value k fs

abbrev pub has_name : String → List (Bool × String × Value) → Bool
has_name k [] = false
has_name k ((b, j, v) ∷ fs) = j == k || has_name k fs

abbrev pub distinct_names : List (Bool × String × Value) → Bool
distinct_names [] = true
distinct_names ((b, k, v) ∷ fs) = not (has_name k fs) && distinct_names fs

has_property-given :
    (k : String) (fs : List (Bool × String × Value))
    → has_name k fs ≡ false
    → has_property k (given fs) ≡ false
unfolding given
has_property-given k [] h = refl
has_property-given k ((b, j, v) ∷ fs) h = ground (arith, has_property-given k fs)

absent-given :
    (k : String) (fs : List (Bool × String × Value))
    → has_name k fs ≡ false
    → property k (given fs) ≡ undefined
unfolding given
absent-given k [] h = refl
absent-given k ((b, j, v) ∷ fs) h = ground (arith, absent-given k fs)

pub property-given :
    (k : String) (fs : List (Bool × String × Value))
    → distinct_names fs ≡ true
    → property k (given fs) ≡ given_value k fs
unfolding given
property-given k [] h = refl
property-given k ((b, j, v) ∷ fs) h =
    ground (arith, eq_iff j k, property-given k fs, absent-given k fs)

pub distinct_keys-given :
    (fs : List (Bool × String × Value)) → distinct_names fs ≡ true → distinct_keys (given fs) ≡ true
unfolding given
distinct_keys-given [] h = refl
distinct_keys-given ((b, k, v) ∷ fs) h =
    ground (arith, distinct_keys-given fs, has_property-given k fs)

-- An object literal, opened after JSON.
pub open_json-given {ℓ} :
    {A : Type ℓ} (fs : List (Bool × String × Value)) (f : (String → Value) → Result A)
    → distinct_names fs ≡ true
    → (open_json (erase (obj (given fs))) >>= f) ≡ f (λ k. erase (given_value k fs))
open_json-given fs f h =
    open_json-erase (given fs) f (distinct_keys-given fs h)
    ∙ ap f (fun_ext (λ k. ap erase (property-given k fs h)))
