-- ===== src/Tests/RandomRuns.antt =====
-- Base 32 texts (web/assets/js/util/index.js).
use ax_ui.Common.{◌≡◌, refl, ℕ, ◌*◌, ◌^◌, ◌+◌, ◌<◌, [], ◌∷◌, length, arith, All}
use ax_ui.RandomUtil.{random_base32_string, base32_digits, base32_text, finish, run, step, drain}
use ax_ui.RandomUtil.Value.{value_from, base32_digits-value}

-- The test vector of RFC 4648 for `foo`, without its padding.
random_base32_string_foo : random_base32_string (102 ∷ 111 ∷ 111 ∷ []) ≡ "MZXW6"
unfolding random_base32_string base32_text base32_digits finish run step drain
random_base32_string_foo = refl

foo_bytes : All (λ x. x < 256) (102 ∷ 111 ∷ 111 ∷ [])
foo_bytes = (omega arith, (omega arith, (omega arith, tt)))

base32_digits-value_example :
    (pad : ℕ) × (pad < 5)
    × (5 * length (base32_digits (102 ∷ 111 ∷ 111 ∷ [])) ≡ 8 * 3 + pad)
    × (value_from 32 0 (base32_digits (102 ∷ 111 ∷ 111 ∷ []))
        ≡ value_from 256 0 (102 ∷ 111 ∷ 111 ∷ []) * 2 ^ pad)
base32_digits-value_example = base32_digits-value (102 ∷ 111 ∷ 111 ∷ []) foo_bytes
