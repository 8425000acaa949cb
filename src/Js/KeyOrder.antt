-- ===== src/Js/KeyOrder.antt =====
-- The order in which JavaScript lists the keys of an object: array indices first, ascending, then the
-- other keys as they were set. A list of properties in another order stands for no object.

use Prim.Native.Char.{code}
use ax_ui.Common.{
  Bool, true, false, ◌&&◌, ◌||◌, not, String, ℕ, ◌+◌, ◌-◌, ◌*◌, List, [], ◌∷◌, Option, none, some,
  if◌then◌else◌, ltb, leb, eqb, ◌==◌,
}

abbrev all_digits : String → Bool
all_digits String.[] = true
all_digits (String.◌∷◌ c s) = leb 48 (code c) && leb (code c) 57 && all_digits s

abbrev number_from : ℕ → String → ℕ
number_from n String.[] = n
number_from n (String.◌∷◌ c s) = number_from (n * 10 + (code c - 48)) s

-- A number in decimal, without leading zeros.
abbrev is_numeral : String → Bool
is_numeral String.[] = false
is_numeral (String.◌∷◌ c s) = all_digits (String.◌∷◌ c s) && (not (eqb (code c) 48) || s == "")

-- The array index that a key is, if it is one: below 2 ^ 32 - 1.
abbrev index_of : String → Option ℕ
index_of s =
    if is_numeral s && ltb (number_from 0 s) 4294967295 then some (number_from 0 s) else none

abbrev may_precede : Option ℕ → Option ℕ → Bool
may_precede (some m) (some n) = ltb m n
may_precede (some m) none = true
may_precede none (some n) = false
may_precede none none = true

abbrev follows : Option ℕ → List String → Bool
follows o [] = true
follows o (k ∷ ks) = may_precede o (index_of k) && follows (index_of k) ks

-- Keys, set in this order, are listed in this order.
abbrev pub in_key_order : List String → Bool
in_key_order [] = true
in_key_order (k ∷ ks) = follows (index_of k) ks
