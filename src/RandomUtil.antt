-- ===== src/RandomUtil.antt =====
-- `RandomUtil.randomBase32String` (web/assets/js/util/index.js), of the bytes that the browser draws.
-- The buffer is a 32-bit integer: its bits are those of a number below 2 ^ 32.
pub mod Value
use ax_ui.Common.{
  ℕ, zero, suc, ◌+◌, ◌-◌, ◌*◌, ◌/◌, ◌%◌, ◌^◌, List, [], ◌∷◌, ◌++◌, ltb, if◌then◌else◌, String,
  Option, some, none, get_elem?,
}
use Prim.Native.String

-- The local variables of the loop; `digits` are the indices into `base32Chars` of the result so far.
pub record State : Type 0 where
  pub digits : List ℕ
  pub bits : ℕ
  pub buffer : ℕ

abbrev pub start : State
start = record { digits = []; bits = 0; buffer = 0 }

-- `while (bits >= 5) { bits -= 5; result += base32Chars[(buffer >>> bits) & 0x1F]; }`
unfoldable pub drain : (bits buffer : ℕ) → List ℕ → State
drain (suc (suc (suc (suc (suc bits))))) buffer digits =
    drain bits buffer (digits ++ (buffer / 2 ^ bits) % 32 ∷ [])
drain bits buffer digits = record { digits = digits; bits = bits; buffer = buffer }

-- One round of the loop over the bytes: `buffer = (buffer << 8) | array[i]`.
unfoldable pub step : State → ℕ → State
step s byte = drain (s.bits + 8) ((s.buffer * 2 ^ 8) % 2 ^ 32 + byte) s.digits

unfoldable pub run : State → List ℕ → State
run s [] = s
run s (byte ∷ bytes) = run (step s byte) bytes

-- What is left gives one more digit: `base32Chars[(buffer << (5 - bits)) & 0x1F]`.
unfoldable pub finish : State → List ℕ
finish s =
    if ltb 0 s.bits
    then s.digits ++ ((s.buffer * 2 ^ (5 - s.bits)) % 2 ^ 32) % 32 ∷ []
    else s.digits

unfoldable pub base32_digits : List ℕ → List ℕ
base32_digits bytes = finish (run start bytes)

abbrev base32_chars : List String
base32_chars =
    "A" ∷ "B" ∷ "C" ∷ "D" ∷ "E" ∷ "F" ∷ "G" ∷ "H" ∷ "I" ∷ "J" ∷ "K" ∷ "L" ∷ "M" ∷ "N" ∷ "O" ∷ "P"
    ∷ "Q" ∷ "R" ∷ "S" ∷ "T" ∷ "U" ∷ "V" ∷ "W" ∷ "X" ∷ "Y" ∷ "Z" ∷ "2" ∷ "3" ∷ "4" ∷ "5" ∷ "6" ∷ "7"
    ∷ []

-- `result += base32Chars[i]`
abbrev char_at : Option String → String
char_at none = "undefined"
char_at (some c) = c

unfoldable pub base32_text : List ℕ → String
base32_text [] = ""
base32_text (d ∷ ds) = String.◌++◌ (char_at (get_elem? base32_chars d)) (base32_text ds)

-- `randomBase32String`, of the bytes in the array.
unfoldable pub random_base32_string : List ℕ → String
random_base32_string bytes = base32_text (base32_digits bytes)
