-- ===== src/Js/Json.antt =====
-- `JSON.parse(JSON.stringify(v))` on values: a property whose value is `undefined` is left out, and
-- an `undefined` element of an array becomes `null`.
use ax_ui.Common.{
  ◌≡◌, refl, ap, String, Bool, true, false, not, ◌&&◌, ◌||◌, if◌then◌else◌, arith, eq_iff,
}
use ax_ui.Js.{
  Value, undefined, null, bool, num, str, arr, obj, Values, nil, cons, Props, end, prop,
  is_undefined, property, has_property, distinct_keys, default,
}

unfoldable mutual
  pub erase : Value → Value
  erase undefined = undefined
  erase null = null
  erase (bool b) = bool b
  erase (num z) = num z
  erase (str s) = str s
  erase (arr vs) = arr (erase_values vs)
  erase (obj ps) = obj (erase_props ps)

  pub erase_values : Values → Values
  erase_values nil = nil
  erase_values (cons v vs) = cons (if is_undefined v then null else erase v) (erase_values vs)

  pub erase_props : Props → Props
  erase_props end = end
  erase_props (prop k v ps) =
      if is_undefined v then erase_props ps else prop k (erase v) (erase_props ps)

-- Values with no `undefined` anywhere: those that JSON can write.
unfoldable mutual
  pub is_json : Value → Bool
  is_json undefined = false
  is_json null = true
  is_json (bool b) = true
  is_json (num z) = true
  is_json (str s) = true
  is_json (arr vs) = is_json_values vs
  is_json (obj ps) = is_json_props ps

  pub is_json_values : Values → Bool
  is_json_values nil = true
  is_json_values (cons v vs) = is_json v && is_json_values vs

  pub is_json_props : Props → Bool
  is_json_props end = true
  is_json_props (prop k v ps) = is_json v && is_json_props ps

pub is_json-defined : (v : Value) → is_json v ≡ true → is_undefined v ≡ false
unfolding is_json
is_json-defined v h = ground arith

mutual
  unfolding erase is_json

  erase_json : (v : Value) → is_json v ≡ true → erase v ≡ v
  erase_json undefined h = refl
  erase_json null h = refl
  erase_json (bool b) h = refl
  erase_json (num z) h = refl
  erase_json (str s) h = refl
  erase_json (arr vs) h = ap arr (erase_json_values vs h)
  erase_json (obj ps) h = ap obj (erase_json_props ps h)

  erase_json_values : (vs : Values) → is_json_values vs ≡ true → erase_values vs ≡ vs
  erase_json_values nil h = refl
  erase_json_values (cons v vs) h =
      ground (arith, is_json-defined v, erase_json v, erase_json_values vs)

  erase_json_props : (ps : Props) → is_json_props ps ≡ true → erase_props ps ≡ ps
  erase_json_props end h = refl
  erase_json_props (prop k v ps) h =
      ground (arith, is_json-defined v, erase_json v, erase_json_props ps)

-- JSON keeps a value that it can write.
pub erase-is_json : (v : Value) → is_json v ≡ true → erase v ≡ v
erase-is_json v h = erase_json v h

-- A default value does not replace a value that JSON can write.
pub default-is_json : (d v : Value) → is_json v ≡ true → default d v ≡ v
unfolding is_json
default-is_json d v h = ground arith

pub default-erase : (d v : Value) → is_json v ≡ true → default d (erase v) ≡ v
default-erase d v h = rw (erase-is_json v h) (default-is_json d v h)

pub property-absent :
    (k : String) (ps : Props) → has_property k ps ≡ false → property k ps ≡ undefined
property-absent k end h = refl
property-absent k (prop j v ps) h = ground (arith, property-absent k ps)

has_property-erase :
    (k : String) (ps : Props) → has_property k ps ≡ false → has_property k (erase_props ps) ≡ false
unfolding erase
has_property-erase k end h = refl
has_property-erase k (prop j v ps) h = ground (arith, has_property-erase k ps)

undefined-erase : (v : Value) → is_undefined v ≡ true → erase v ≡ undefined
unfolding erase
undefined-erase v h = ground arith

-- Reading a property after a round through JSON is reading it before.
pub property-erase :
    (k : String) (ps : Props)
    → distinct_keys ps ≡ true
    → property k (erase_props ps) ≡ erase (property k ps)
unfolding erase
property-erase k end h = refl
property-erase k (prop j v ps) h = ground (
  arith,
  eq_iff j k,
  undefined-erase v,
  property-erase k ps,
  has_property-erase k ps,
  property-absent k (erase_props ps),
)

-- After a round through JSON an object has the properties whose value is not `undefined`.
pub has_property-erase_props :
    (k : String) (ps : Props)
    → distinct_keys ps ≡ true
    → has_property k (erase_props ps) ≡ not (is_undefined (property k ps))
unfolding erase
has_property-erase_props k end h = refl
has_property-erase_props k (prop j v ps) h =
    ground (arith, eq_iff j k, has_property-erase_props k ps, has_property-erase k ps)

pub is_json-not_undefined : (v : Value) → is_json v ≡ true → not (is_undefined v) ≡ true
is_json-not_undefined v h = rw (is_json-defined v h)

-- A value that JSON can write, or `undefined`, which it leaves out.
abbrev pub is_optional : Value → Bool
is_optional v = is_undefined v || is_json v

pub optional-erase : (v : Value) → is_optional v ≡ true → default undefined (erase v) ≡ v
optional-erase undefined h = unfold erase in refl
optional-erase null h = unfold erase in refl
optional-erase (bool b) h = unfold erase in refl
optional-erase (num z) h = unfold erase in refl
optional-erase (str s) h = unfold erase in refl
optional-erase (arr vs) h = default-erase undefined (arr vs) h
optional-erase (obj ps) h = default-erase undefined (obj ps) h

pub erase_optional : (v : Value) → is_optional v ≡ true → erase v ≡ v
erase_optional undefined h = unfold erase in refl
erase_optional null h = unfold erase in refl
erase_optional (bool b) h = unfold erase in refl
erase_optional (num z) h = unfold erase in refl
erase_optional (str s) h = unfold erase in refl
erase_optional (arr vs) h = erase-is_json (arr vs) h
erase_optional (obj ps) h = erase-is_json (obj ps) h
