-- ===== src/RandomUtil/Value.antt =====
-- What the base 32 text of random bytes stands for (web/assets/js/util/index.js).
use ax_ui.Common.{
  ◌≡◌, refl, arith, ℕ, zero, suc, ◌+◌, ◌-◌, ◌*◌, ◌/◌, ◌%◌, ◌^◌, ◌<◌, List, [], ◌∷◌, ◌++◌, length,
  length-append, All,
}
use ax_ui.RandomUtil.{State, start, drain, step, run, finish, base32_digits}

-- The number that digits stand for, the first one the highest.
abbrev pub value_from : (base n : ℕ) → List ℕ → ℕ
value_from base n [] = n
value_from base n (d ∷ ds) = value_from base (n * base + d) ds

value_from-append :
    (base n d : ℕ) (ds : List ℕ)
    → value_from base n (ds ++ d ∷ []) ≡ value_from base n ds * base + d
value_from-append base n d [] = refl
value_from-append base n d (e ∷ ds) = value_from-append base (n * base + e) d ds

-- The state of the loop stands for the number `n` of `count` bytes.
abbrev StandsFor : State → (n count : ℕ) → Type 0
StandsFor s n count =
    (s.bits < 5)
    × (value_from 32 0 s.digits * 2 ^ s.bits + s.buffer % 2 ^ s.bits ≡ n)
    × (5 * length s.digits + s.bits ≡ 8 * count)

-- One digit written, then a second one.
one_digit :
    (ds : List ℕ) (d : ℕ)
    → (value_from 32 0 (ds ++ d ∷ []) ≡ value_from 32 0 ds * 32 + d)
      × (length (ds ++ d ∷ []) ≡ length ds + 1)
one_digit ds d = (value_from-append 32 0 d ds, length-append ds (d ∷ []))

two_digits :
    (ds : List ℕ) (d e : ℕ)
    → (value_from 32 0 ((ds ++ d ∷ []) ++ e ∷ []) ≡ (value_from 32 0 ds * 32 + d) * 32 + e)
      × (length ((ds ++ d ∷ []) ++ e ∷ []) ≡ length ds + 2)
two_digits ds d e = (
  omega (arith, one_digit (ds ++ d ∷ []) e, one_digit ds d),
  omega (arith, one_digit (ds ++ d ∷ []) e, one_digit ds d),
)

drain-StandsFor :
    (b u x n count : ℕ) (ds : List ℕ)
    → x < 256
    → StandsFor (record { digits = ds; bits = b; buffer = u }) n count
    → StandsFor (drain (b + 8) ((u * 2 ^ 8) % 2 ^ 32 + x) ds) (n * 256 + x) (suc count)
unfolding drain
drain-StandsFor zero u x n count ds h (small, e, l) =
    let w = (u * 256) % 4294967296 + x in
    let d = one_digit ds ((w / 8) % 32) in (omega arith, omega (arith, d, e), omega (arith, d, l))
drain-StandsFor (suc zero) u x n count ds h (small, e, l) =
    let w = (u * 256) % 4294967296 + x in
    let d = one_digit ds ((w / 16) % 32) in (omega arith, omega (arith, d, e), omega (arith, d, l))
drain-StandsFor (suc (suc zero)) u x n count ds h (small, e, l) =
    let w = (u * 256) % 4294967296 + x in
    let d = two_digits ds ((w / 32) % 32) ((w / 1) % 32) in
    (omega arith, omega (arith, d, e), omega (arith, d, l))
drain-StandsFor (suc (suc (suc zero))) u x n count ds h (small, e, l) =
    let w = (u * 256) % 4294967296 + x in
    let d = two_digits ds ((w / 64) % 32) ((w / 2) % 32) in
    (omega arith, omega (arith, d, e), omega (arith, d, l))
drain-StandsFor (suc (suc (suc (suc zero)))) u x n count ds h (small, e, l) =
    let w = (u * 256) % 4294967296 + x in
    let d = two_digits ds ((w / 128) % 32) ((w / 4) % 32) in
    (omega arith, omega (arith, d, e), omega (arith, d, l))
drain-StandsFor (suc (suc (suc (suc (suc b))))) u x n count ds h (small, e, l) =
    omega (arith, small)

step-StandsFor :
    (s : State) (x n count : ℕ)
    → x < 256
    → StandsFor s n count
    → StandsFor (step s x) (n * 256 + x) (suc count)
unfolding step
step-StandsFor s x n count h k = drain-StandsFor s.bits s.buffer x n count s.digits h k

run-StandsFor :
    (s : State) (bytes : List ℕ) (n count : ℕ)
    → All (λ x. x < 256) bytes
    → StandsFor s n count
    → StandsFor (run s bytes) (value_from 256 n bytes) (count + length bytes)
unfolding run
run-StandsFor s [] n count h k = (k.0, k.1, omega (arith, k.2))
run-StandsFor s (x ∷ bytes) n count h k =
    let (small, e, l) =
      run-StandsFor (step s x) bytes (n * 256 + x) (suc count) h.1
        (step-StandsFor s x n count h.0 k) in
    (small, e, omega (arith, l))

-- The bits that are missing to the last digit.
abbrev pub padding : State → ℕ
padding s = (5 - s.bits) % 5

finish-value :
    (b u n count : ℕ) (ds : List ℕ)
    → StandsFor (record { digits = ds; bits = b; buffer = u }) n count
    → (value_from 32 0 (finish (record { digits = ds; bits = b; buffer = u }))
        ≡ n * 2 ^ ((5 - b) % 5))
      × (5 * length (finish (record { digits = ds; bits = b; buffer = u }))
          ≡ 8 * count + (5 - b) % 5)
unfolding finish
finish-value zero u n count ds (small, e, l) = (omega (arith, e), omega (arith, l))
finish-value (suc zero) u n count ds (small, e, l) =
    let d = one_digit ds (((u * 16) % 4294967296) % 32) in
    (omega (arith, d, e), omega (arith, d, l))
finish-value (suc (suc zero)) u n count ds (small, e, l) =
    let d = one_digit ds (((u * 8) % 4294967296) % 32) in (omega (arith, d, e), omega (arith, d, l))
finish-value (suc (suc (suc zero))) u n count ds (small, e, l) =
    let d = one_digit ds (((u * 4) % 4294967296) % 32) in (omega (arith, d, e), omega (arith, d, l))
finish-value (suc (suc (suc (suc zero)))) u n count ds (small, e, l) =
    let d = one_digit ds (((u * 2) % 4294967296) % 32) in (omega (arith, d, e), omega (arith, d, l))
finish-value (suc (suc (suc (suc (suc b))))) u n count ds (small, e, l) = omega (arith, small)

-- The base 32 digits of bytes, which are numbers below 256, stand for the number of the bytes
-- followed by fewer than five zero bits, and there are as many digits as these bits fill.
pub base32_digits-value :
    (bytes : List ℕ)
    → All (λ x. x < 256) bytes
    → (pad : ℕ) × (pad < 5)
      × (5 * length (base32_digits bytes) ≡ 8 * length bytes + pad)
      × (value_from 32 0 (base32_digits bytes) ≡ value_from 256 0 bytes * 2 ^ pad)
unfolding base32_digits
base32_digits-value bytes h =
    let s = run start bytes in
    let (v, l) =
      finish-value s.bits s.buffer (value_from 256 0 bytes) (0 + length bytes) s.digits
        (run-StandsFor start bytes 0 0 h (omega arith, refl, refl)) in
    (padding s, omega arith, omega (arith, l), v)
