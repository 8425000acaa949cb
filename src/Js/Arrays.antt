-- ===== src/Js/Arrays.antt =====
-- Lists of objects written to JSON and read back, element by element.
use ax_ui.Common.{
  ℕ, suc, type_error, ◌≡◌, refl, false, List, [], ◌∷◌, map, Result, ok, ◌>>=◌, traverse, All,
}
use ax_ui.Js.{Value, arr, Values, or_value, is_undefined, elements, of_list}
use ax_ui.Js.Json.{erase, erase_values}

pub erase-arr : (vs : Values) → erase (arr vs) ≡ arr (erase_values vs)
unfolding erase
erase-arr vs = refl

-- What `write` gives of a thing is a value that `read` takes back, after a round through JSON, to
-- what is kept of the thing.
module _ {ℓ κ} {A : Type ℓ} {B : Type κ} (write : A → Result Value) (read : Value → Result B)
    (kept : A → B) where
  abbrev pub ReadsBack : A → Type κ
  ReadsBack x =
      (v : Value) × (write x ≡ ok v) × (is_undefined v ≡ false) × (read (erase v) ≡ ok (kept x))

  pub traverse-ReadsBack :
      (xs : List A)
      → All ReadsBack xs
      → (vs : List Value) × (traverse write xs ≡ ok vs)
        × (traverse read (elements (erase_values (of_list vs))) ≡ ok (map kept xs))
  unfolding traverse erase
  traverse-ReadsBack [] h = ([], refl, refl)
  traverse-ReadsBack (x ∷ xs) h =
      let (v, w, d, r) = h.0 in
      let (vs, ws, rs) = traverse-ReadsBack xs h.1 in (v ∷ vs, rw (w, ws), rw d (rw (r, rs)))

-- `v.map(f)`, where what `f` does may depend on the place (it draws random values); only an array has
-- `map`.
unfoldable pub traverse_at {ℓ κ} :
    {A : Type ℓ} {B : Type κ} → (ℕ → A → Result B) → ℕ → List A → Result (List B)
traverse_at f i [] = ok []
traverse_at f i (x ∷ xs) = do y ← f i x; ys ← traverse_at f (suc i) xs; ok (y ∷ ys)

unfoldable pub map_array {κ} : {B : Type κ} → (ℕ → Value → Result B) → Value → Result (List B)
map_array f (arr vs) = traverse_at f 0 (elements vs)
map_array f v = type_error

-- The same for `map_array`, with a condition `P` under which a thing comes back at any place.
module _ {ℓ κ μ} {A : Type ℓ} {B : Type κ} (write : A → Result Value) (read : ℕ → Value → Result B)
    (kept : A → B) (P : A → Type μ)
    (back : (i : ℕ) (x : A) → P x → ReadsBack write (read i) kept x) where
  traverse_at-ReadsBack :
      (i : ℕ) (xs : List A)
      → All P xs
      → (vs : List Value) × (traverse write xs ≡ ok vs)
        × (traverse_at read i (elements (erase_values (of_list vs))) ≡ ok (map kept xs))
  unfolding traverse traverse_at erase
  traverse_at-ReadsBack i [] h = ([], refl, refl)
  traverse_at-ReadsBack i (x ∷ xs) h =
      let (v, w, d, r) = back i x h.0 in
      let (vs, ws, rs) = traverse_at-ReadsBack (suc i) xs h.1 in
      (v ∷ vs, rw (w, ws), rw d (rw (r, rs)))

  -- An array of written things comes back as what is kept of them.
  pub map_array-erase :
      (xs : List A)
      → All P xs
      → (vs : List Value) × (traverse write xs ≡ ok vs)
        × (map_array read (erase (arr (of_list vs))) ≡ ok (map kept xs))
  unfolding map_array
  map_array-erase xs h =
      let (vs, ws, rs) = traverse_at-ReadsBack 0 xs h in (vs, ws, rw (erase-arr (of_list vs)) rs)

-- An array is truthy, after JSON too.
pub or_value-erase_arr : (vs : Values) (d : Value) → or_value (erase (arr vs)) d ≡ erase (arr vs)
unfolding erase
or_value-erase_arr vs d = refl

-- The same where writing cannot fail and nothing is lost.
module _ {ℓ μ} {A : Type ℓ} (write : A → Value) (read : ℕ → Value → Result A) (P : A → Type μ)
    (back : (i : ℕ) (x : A)
      → P x
      → (is_undefined (write x) ≡ false) × (read i (erase (write x)) ≡ ok x)) where
  traverse_at-map :
      (i : ℕ) (xs : List A)
      → All P xs
      → traverse_at read i (elements (erase_values (of_list (map write xs)))) ≡ ok xs
  unfolding traverse_at erase
  traverse_at-map i [] h = refl
  traverse_at-map i (x ∷ xs) h =
      let (d, r) = back i x h.0 in rw d (rw (r, traverse_at-map (suc i) xs h.1))

  pub map_array-map :
      (xs : List A) → All P xs → map_array read (erase (arr (of_list (map write xs)))) ≡ ok xs
  unfolding map_array
  map_array-map xs h = rw (erase-arr (of_list (map write xs))) (traverse_at-map 0 xs h)
