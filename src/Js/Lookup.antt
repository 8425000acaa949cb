-- ===== src/Js/Lookup.antt =====
-- Objects as finite maps: writing and reading a property, and opening a `json = {}` parameter.
use mathlib.Core.Path.{fun_ext}
use ax_ui.Common.{
  ◌≡◌, refl, ap, String, true, not, ok, ◌==◌, if◌then◌else◌, arith, eq_iff, Result, ◌>>=◌,
  Bool-cases, inl, inr,
}
use ax_ui.Js.{
  Value, undefined, obj, Props, end, prop, property, put, distinct_keys, default, reader, or_value,
  truthy, in_value, is_undefined,
}
use ax_ui.Js.Json.{
  erase, is_json, is_optional, default-erase, erase_optional, property-erase,
  has_property-erase_props,
}

-- The properties of a parameter `json = {}`; a `null` throws at the first access.
unfoldable pub open_json : Value → Result (String → Value)
open_json json = reader (default (obj end) json)

-- A round through JSON reaches the reader as `erase` of each property.
pub open_json-erase {ℓ} :
    {A : Type ℓ} (ps : Props) (f : (String → Value) → Result A)
    → distinct_keys ps ≡ true
    → (open_json (erase (obj ps)) >>= f) ≡ f (λ k. erase (property k ps))
unfolding open_json erase
open_json-erase ps f h = ap f (fun_ext (λ k. property-erase k ps h))

pub open_json-undefined {ℓ} :
    {A : Type ℓ} (f : (String → Value) → Result A)
    → (open_json undefined >>= f) ≡ f (λ k. undefined)
unfolding open_json
open_json-undefined f = refl

-- A read after a write.
pub property-put :
    (k j : String) (v : Value) (ps : Props)
    → property j (put k v ps) ≡ (if k == j then v else property j ps)
property-put k j v end = refl
property-put k j v (prop i w ps) =
    ground (arith, eq_iff k j, eq_iff i k, eq_iff i j, property-put k j v ps)

pub erase-undefined : erase undefined ≡ undefined
unfolding erase
erase-undefined = refl

-- Opening a property that is an object, and one for which `{}` may stand in.
pub reader-erase {ℓ} :
    {A : Type ℓ} (ps : Props) (f : (String → Value) → Result A)
    → distinct_keys ps ≡ true
    → (reader (erase (obj ps)) >>= f) ≡ f (λ k. erase (property k ps))
unfolding erase
reader-erase ps f h = ap f (fun_ext (λ k. property-erase k ps h))

pub or_value-erase : (ps : Props) (v : Value) → or_value (erase (obj ps)) v ≡ erase (obj ps)
unfolding erase
or_value-erase ps v = refl

pub default-erase_obj : (d : Value) (ps : Props) → default d (erase (obj ps)) ≡ erase (obj ps)
unfolding erase
default-erase_obj d ps = refl

pub in_value-erase :
    (k : String) (ps : Props)
    → distinct_keys ps ≡ true
    → in_value k (erase (obj ps)) ≡ ok (not (is_undefined (property k ps)))
unfolding erase
in_value-erase k ps h = ap ok (has_property-erase_props k ps h)

-- An object is truthy, after JSON too.
pub truthy-erase_obj : (ps : Props) → truthy (erase (obj ps)) ≡ true
unfolding erase
truthy-erase_obj ps = refl

-- A value that is written where it is truthy, and `d` for any other.
pub default-truthy :
    (d v : Value)
    → is_json v ≡ true
    → default d (erase (if truthy v then v else undefined)) ≡ or_value v d
default-truthy d v h = elim (Bool-cases (truthy v)) [
  | inl y ↦ rw y (default-erase d v h)
  | inr n ↦ rw n (rw erase-undefined)
]

pub optional-truthy :
    (v : Value)
    → is_optional v ≡ true
    → erase (if truthy v then v else undefined) ≡ or_value v undefined
optional-truthy v h = elim (Bool-cases (truthy v)) [
  | inl y ↦ rw y (erase_optional v h)
  | inr n ↦ rw n erase-undefined
]
