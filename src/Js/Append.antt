-- ===== src/Js/Append.antt =====
-- Adding new properties to an object, one after another.
use ax_ui.Common.{◌≡◌, refl, ap, Bool, true, false, not, ◌&&◌, ◌||◌, String, ◌==◌, arith, eq_iff}
use ax_ui.Js.{Value, Props, end, prop, has_property, put}

abbrev pub append_props : Props → Props → Props
append_props end qs = qs
append_props (prop k v ps) qs = prop k v (append_props ps qs)

pub append_props-end : (ps : Props) → append_props ps end ≡ ps
append_props-end end = refl
append_props-end (prop k v ps) = ap (prop k v) (append_props-end ps)

pub append_props_assoc :
    (ps qs rs : Props) → append_props (append_props ps qs) rs ≡ append_props ps (append_props qs rs)
append_props_assoc end qs rs = refl
append_props_assoc (prop k v ps) qs rs = ap (prop k v) (append_props_assoc ps qs rs)

-- Writing a new key puts it last.
pub put_new :
    (k : String) (v : Value) (ps : Props)
    → has_property k ps ≡ false
    → put k v ps ≡ append_props ps (prop k v end)
put_new k v end h = refl
put_new k v (prop j w ps) h = ground (arith, put_new k v ps)

-- No key of the first object is a key of the second.
abbrev pub are_apart : Props → Props → Bool
are_apart end qs = true
are_apart (prop k v ps) qs = not (has_property k qs) && are_apart ps qs

pub are_apart-append :
    (ps qs : Props) (k : String) (v : Value)
    → are_apart ps qs ≡ true
    → has_property k ps ≡ false
    → are_apart ps (append_props qs (prop k v end)) ≡ true
are_apart-append end qs k v h e = refl
are_apart-append (prop j w ps) qs k v h e =
    ground (arith, eq_iff j k, eq_iff k j, has_property-append j qs k v, are_apart-append ps qs k v)
  where
    has_property-append :
        (j : String) (qs : Props) (k : String) (v : Value)
        → has_property j (append_props qs (prop k v end)) ≡ (has_property j qs || k == j)
    has_property-append j end k v = ground arith
    has_property-append j (prop i w qs) k v = ground (arith, has_property-append j qs k v)

pub are_apart-end : (ps : Props) → are_apart ps end ≡ true
are_apart-end end = refl
are_apart-end (prop k v ps) = are_apart-end ps
