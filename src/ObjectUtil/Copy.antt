-- ===== src/ObjectUtil/Copy.antt =====
-- What `ObjectUtil`'s copying functions (web/assets/js/util/index.js) guarantee.
use ax_ui.Common.{
  ◌≡◌, refl, true, not, ◌&&◌, ◌||◌, String, List, [], ◌∷◌, ◌==◌, if◌then◌else◌, arith, eq_iff,
}
use ax_ui.Js.{
  Value, undefined, obj, Props, end, prop, is_undefined, property, has_property, put, keys,
  distinct_keys,
}
use ax_ui.Js.Lookup.{property-put}
use ax_ui.ObjectUtil.{contains, copy_prop, copy_props, clone_props, remove, del_props, own_props}
use ax_ui.Js.Json.{property-absent}

keys-put :
    (k : String) (v : Value) (ps : Props) → has_property k ps ≡ true → keys (put k v ps) ≡ keys ps
keys-put k v end h = cc
keys-put k v (prop j w ps) h = ground (arith, eq_iff j k, keys-put k v ps)

keys-copy_props :
    (ignore : List String) (src dest : Props) → keys (copy_props ignore src dest) ≡ keys dest
unfolding copy_props
keys-copy_props ignore end dest = refl
keys-copy_props ignore (prop j v ps) dest =
    ground (arith, keys-put j v dest, keys-copy_props ignore ps (copy_prop ignore j v dest))

-- Copying properties adds no key, removes none and keeps their order.
pub keys-clone_props :
    (dest : Props) (src : Value) (ignore : List String)
    → keys (clone_props dest src ignore) ≡ keys dest
unfolding clone_props
keys-clone_props dest src ignore = ground (arith, keys-copy_props ignore (own_props src) dest)

has_property-put :
    (k j : String) (v : Value) (ps : Props)
    → has_property j (put k v ps) ≡ (k == j || has_property j ps)
has_property-put k j v end = ground arith
has_property-put k j v (prop i w ps) =
    ground (arith, eq_iff k j, eq_iff i k, eq_iff i j, has_property-put k j v ps)

-- After copying, a property of `dest` has the value that `src` has for it, unless `src` has none, or
-- `undefined`, or the name is ignored.
abbrev pub copied : List String → Props → Props → String → Value
copied ignore dest src k =
    if has_property k dest && (not (is_undefined (property k src)) && not (contains ignore k))
    then property k src
    else property k dest

property-copy_props :
    (ignore : List String) (src dest : Props) (k : String)
    → distinct_keys src ≡ true
    → property k (copy_props ignore src dest) ≡ copied ignore dest src k
unfolding copy_props
property-copy_props ignore end dest k h = ground arith
property-copy_props ignore (prop j v ps) dest k h = ground (
  arith,
  eq_iff j k,
  property-absent k ps,
  property-put j k v dest,
  has_property-put j k v dest,
  property-copy_props ignore ps (copy_prop ignore j v dest) k,
)

-- After `cloneProps` a property of `dest` has the value that `src` has for it, and its own where `src`
-- has none or `undefined`, where the name is ignored, and where `dest` does not have the property, if
-- `src` has each key once.
pub property-clone_props :
    (dest src : Props) (ignore : List String) (k : String)
    → distinct_keys src ≡ true
    → property k (clone_props dest (obj src) ignore) ≡ copied ignore dest src k
unfolding clone_props
property-clone_props dest src ignore k h = property-copy_props ignore src dest k h

property-remove :
    (k j : String) (ps : Props)
    → property j (remove k ps) ≡ (if k == j then undefined else property j ps)
property-remove k j end = ground arith
property-remove k j (prop i w ps) =
    ground (arith, eq_iff k j, eq_iff i k, eq_iff i j, property-remove k j ps)

has_property-remove :
    (k j : String) (ps : Props)
    → distinct_keys ps ≡ true
    → has_property j (remove k ps) ≡ (not (k == j) && has_property j ps)
has_property-remove k j end h = ground arith
has_property-remove k j (prop i w ps) h =
    ground (arith, eq_iff k j, eq_iff i k, eq_iff i j, has_property-remove k j ps)

distinct_keys-remove :
    (k : String) (ps : Props) → distinct_keys ps ≡ true → distinct_keys (remove k ps) ≡ true
distinct_keys-remove k end h = refl
distinct_keys-remove k (prop i w ps) h =
    ground (arith, eq_iff i k, distinct_keys-remove k ps, has_property-remove k i ps)

-- After `delProps` the object has no property of the names given, and every other one is there as it
-- was, if the object has each key once.
pub property-del_props :
    (ps : Props) (ks : List String) (j : String)
    → distinct_keys ps ≡ true
    → (has_property j (del_props ps ks) ≡ (not (contains ks j) && has_property j ps))
      × (property j (del_props ps ks) ≡ (if contains ks j then undefined else property j ps))
unfolding del_props
property-del_props ps [] j h = (refl, refl)
property-del_props ps (k ∷ ks) j h = ground (
  arith,
  distinct_keys-remove k ps h,
  property-del_props (remove k ps) ks j,
  property-remove k j ps,
  has_property-remove k j ps h,
)
