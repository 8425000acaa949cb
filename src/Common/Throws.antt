-- ===== src/Common/Throws.antt =====
-- What evaluating a JavaScript expression gives: a value, or a `TypeError` that is thrown.
use mathlib.Core.List.{List, [], ◌∷◌}
use mathlib.Core.Path.{◌≡◌, refl, subst}

pub data Result {ℓ} (A : Type ℓ) : Type ℓ where
  ok : A → Result A
  type_error : Result A

infixl 5 ◌>>=◌
abbrev pub ◌>>=◌ {ℓ κ} : {A : Type ℓ} {B : Type κ} → Result A → (A → Result B) → Result B
ok a >>= f = f a
type_error >>= f = type_error

-- A function that may throw, over a list from the left.
unfoldable pub traverse {ℓ κ} :
    {A : Type ℓ} {B : Type κ} → (A → Result B) → List A → Result (List B)
traverse f [] = ok []
traverse f (x ∷ xs) = do y ← f x; ys ← traverse f xs; ok (y ∷ ys)

-- What the code gives, unless it throws, has a property.
abbrev pub Holds {ℓ} : {A : Type ℓ} → (A → Type 0) → Result A → Type 0
Holds P (ok a) = P a
Holds P type_error = Unit

pub Holds-intro {ℓ} :
    {A : Type ℓ} (P : A → Type 0) (r : Result A) → ((a : A) → r ≡ ok a → P a) → Holds P r
Holds-intro P (ok a) h = h a refl
Holds-intro P type_error h = tt

pub Holds-elim {ℓ} :
    {A : Type ℓ} (P : A → Type 0) (r : Result A) {a : A} → r ≡ ok a → Holds P r → P a
Holds-elim P r e h = subst (Holds P) e h

pub Holds-bind {ℓ κ} :
    {A : Type ℓ} {B : Type κ} (P : A → Type 0) (Q : B → Type 0) (r : Result A) (f : A → Result B)
    → Holds P r
    → ((a : A) → P a → Holds Q (f a))
    → Holds Q (r >>= f)
Holds-bind P Q (ok a) f h k = k a h
Holds-bind P Q type_error f h k = tt

-- The same where nothing is said of the first step.
pub Holds-bind_any {ℓ κ} :
    {A : Type ℓ} {B : Type κ} (Q : B → Type 0) (r : Result A) (f : A → Result B)
    → ((a : A) → Holds Q (f a))
    → Holds Q (r >>= f)
Holds-bind_any Q (ok a) f k = k a
Holds-bind_any Q type_error f k = tt
