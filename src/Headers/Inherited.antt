-- ===== src/Headers/Inherited.antt =====
-- `toV2Headers(headers)` (web/assets/js/model/inbound.js) on a header whose name every object inherits.
use ax_ui.Common.{
  ◌≡◌, refl, Bool, true, false, not, ◌&&◌, ◌||◌, String, List, [], ◌∷◌, ◌++◌, ◌⊎◌, inl, inr, arith,
  eq_iff, ok, type_error, Bool-cases,
}
use ax_ui.Js.{Value, arr, Props, end, prop, nil, cons, property, has_property, put}
use ax_ui.Js.Json.{property-absent}
use ax_ui.Headers.{Header, is_blank, inherited, add_header, add_headers, push_to, to_v2_headers}

-- No property has a name that every object inherits.
abbrev all_own : Props → Bool
all_own end = true
all_own (prop k v ps) = not (inherited k) && all_own ps

all_own-put :
    (k : String) (v : Value) (ps : Props)
    → inherited k ≡ false
    → all_own ps ≡ true
    → all_own (put k v ps) ≡ true
all_own-put k v end i a = ground arith
all_own-put k v (prop j w ps) i a = ground (arith, eq_iff j k, all_own-put k v ps)

own_has_property :
    (k : String) (ps : Props) → all_own ps ≡ true → inherited k ≡ true → has_property k ps ≡ false
own_has_property k end a i = refl
own_has_property k (prop j w ps) a i = ground (arith, eq_iff j k, own_has_property k ps)

push_to_cases : (v w : Value) → (push_to v w ≡ type_error) ⊎ ((u : Value) × (push_to v w ≡ ok u))
push_to_cases (arr vs) w = inr (_, refl)
push_to_cases _ w = inl refl

-- One round either throws or leaves properties with names of their own.
add_header-all_own :
    (h : Header) (ps : Props)
    → all_own ps ≡ true
    → (add_header true h ps ≡ type_error)
      ⊎ ((qs : Props) × (add_header true h ps ≡ ok qs) × (all_own qs ≡ true))
unfolding add_header
add_header-all_own h ps a = elim (Bool-cases (is_blank h)) [
  | inl y ↦ inr (ps, rw y refl, a)
  | inr n ↦ elim (Bool-cases (has_property h.name ps || inherited h.name)) [
    | inl y ↦ elim (push_to_cases (property h.name ps) h.value) [
      | inl e ↦ inl (ground (arith, e))
      | inr (v, e) ↦ inr (
        put h.name v ps,
        ground (arith, e),
        all_own-put h.name v ps
            (ground (arith, own_has_property h.name ps a, property-absent h.name ps)) a,
      )
    ]
    | inr m ↦ inr (
      put h.name (arr (cons h.value nil)) ps,
      ground arith,
      all_own-put h.name (arr (cons h.value nil)) ps (ground arith) a,
    )
  ]
]

inherited_throws :
    (h : Header) (ps : Props)
    → is_blank h ≡ false
    → inherited h.name ≡ true
    → all_own ps ≡ true
    → add_header true h ps ≡ type_error
unfolding add_header
inherited_throws h ps b i a =
    ground (arith, own_has_property h.name ps a i, property-absent h.name ps)

add_headers-inherited :
    (xs : List Header) (h : Header) (ys : List Header) (ps : Props)
    → is_blank h ≡ false
    → inherited h.name ≡ true
    → all_own ps ≡ true
    → add_headers true (xs ++ h ∷ ys) ps ≡ type_error
unfolding add_headers
add_headers-inherited [] h ys ps b i a = rw (inherited_throws h ps b i a) refl
add_headers-inherited (x ∷ xs) h ys ps b i a = elim (add_header-all_own x ps a) [
  | inl e ↦ rw e refl
  | inr (qs, e, a') ↦ rw e (add_headers-inherited xs h ys qs b i a')
]

-- With arrays, a header with a name that every object inherits, and with a value that is not empty,
-- makes the call throw, whatever headers stand before it and after it.
pub to_v2_headers-inherited :
    (xs : List Header) (h : Header) (ys : List Header)
    → is_blank h ≡ false
    → inherited h.name ≡ true
    → to_v2_headers (xs ++ h ∷ ys) true ≡ type_error
unfolding to_v2_headers
to_v2_headers-inherited xs h ys b i = rw (add_headers-inherited xs h ys end b i refl) refl
