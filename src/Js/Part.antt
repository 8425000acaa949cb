-- ===== src/Js/Part.antt =====
-- A part of a larger object: a class with `fromJson`, `toJson` and a constructor without arguments. The
-- larger object writes the part where it is in use, and reads it in any case.
use ax_ui.Common.{◌≡◌, refl, Bool, true, false, Result, ok, if◌then◌else◌}
use ax_ui.Js.{Value, undefined}
use ax_ui.Js.Json.{erase}
use ax_ui.Js.Lookup.{erase-undefined}

-- A part that is written where it is in use, and is `undefined` elsewhere.
abbrev pub when : Bool → Result Value → Result Value
when on written = if on then written else ok undefined

-- One part: what is written of it is read back if it is in use, and gives the default if not.
pub part_back {ℓ} :
    {A : Type ℓ} (on : Bool) (written : Result Value) (read : Value → Result A) (part default : A)
    → (on ≡ true → (v : Value) × (written ≡ ok v) × (read (erase v) ≡ ok part))
    → read undefined ≡ ok default
    → (v : Value) × (when on written ≡ ok v) × (read (erase v) ≡ ok (if on then part else default))
part_back true written read part default h d = h refl
part_back false written read part default h d = (undefined, refl, rw erase-undefined d)

-- The contract of such a class: `kept` is what comes back of a part that JSON can write.
pub record Part (A : Type 0) : Type 1 where
  pub new : A
  pub read : Value → Result A
  pub write : A → Result Value
  pub IsJson : A → Type 0
  pub kept : A → A
  pub back : (a : A) → IsJson a → (v : Value) × (write a ≡ ok v) × (read (erase v) ≡ ok (kept a))
  pub from_undefined : read undefined ≡ ok new

-- A client of the contract has its part back, or the default, whichever class it is.
pub Part-back :
    {A : Type 0} (p : Part A) (on : Bool) (a : A)
    → (on ≡ true → p.IsJson a)
    → (v : Value) × (when on (p.write a) ≡ ok v)
      × (p.read (erase v) ≡ ok (if on then p.kept a else p.new))
Part-back p on a h =
    part_back on (p.write a) p.read (p.kept a) p.new (λ e. p.back a (h e)) p.from_undefined
