-- ===== src/ObjectUtil/DeepClone.antt =====
-- `ObjectUtil.deepClone` (web/assets/js/util/index.js): the copy equals the original.
use ax_ui.Common.{◌≡◌, refl, ap, sym, ◌∙◌, Bool, true, ◌&&◌, arith}
use ax_ui.Js.{
  Value, undefined, null, bool, num, str, arr, obj, Values, nil, cons, Props, end, prop, put,
  distinct_keys,
}
use ax_ui.Js.Append.{
  append_props, append_props-end, append_props_assoc, put_new, are_apart, are_apart-append,
  are_apart-end,
}
use ax_ui.ObjectUtil.{deep_clone, deep_clone_values, deep_clone_props}

-- Every object within the value has each key once.
unfoldable mutual
  pub well_formed : Value → Bool
  well_formed (arr vs) = well_formed_values vs
  well_formed (obj ps) = distinct_keys ps && well_formed_props ps
  well_formed undefined = true
  well_formed null = true
  well_formed (bool b) = true
  well_formed (num z) = true
  well_formed (str s) = true

  pub well_formed_values : Values → Bool
  well_formed_values nil = true
  well_formed_values (cons v vs) = well_formed v && well_formed_values vs

  pub well_formed_props : Props → Bool
  well_formed_props end = true
  well_formed_props (prop k v ps) = well_formed v && well_formed_props ps

mutual
  unfolding deep_clone well_formed

  clone_value : (v : Value) → well_formed v ≡ true → deep_clone v ≡ v
  clone_value undefined h = refl
  clone_value null h = refl
  clone_value (bool b) h = refl
  clone_value (num z) h = refl
  clone_value (str s) h = refl
  clone_value (arr vs) h = ap arr (clone_values vs h)
  clone_value (obj ps) h =
      ap obj (clone_props ps end (ground arith) (ground arith) (are_apart-end ps))

  clone_values : (vs : Values) → well_formed_values vs ≡ true → deep_clone_values vs ≡ vs
  clone_values nil h = refl
  clone_values (cons v vs) h = ground (arith, clone_value v, clone_values vs)

  clone_props :
      (ps copy : Props)
      → well_formed_props ps ≡ true
      → distinct_keys ps ≡ true
      → are_apart ps copy ≡ true
      → deep_clone_props ps copy ≡ append_props copy ps
  clone_props end copy w d h = sym (append_props-end copy)
  clone_props (prop k v ps) copy w d h =
      ap (deep_clone_props ps)
        (ap (λ c. put k c copy) (clone_value v (ground arith)) ∙ put_new k v copy (ground arith))
      ∙ clone_props ps (append_props copy (prop k v end)) (ground arith) (ground arith)
          (are_apart-append ps copy k v (ground arith) (ground arith))
      ∙ append_props_assoc copy (prop k v end) ps

-- A deep copy is equal to the value that it copies, for every value whose objects have each key once.
pub deep_clone_lem : (v : Value) → well_formed v ≡ true → deep_clone v ≡ v
deep_clone_lem v h = clone_value v h
