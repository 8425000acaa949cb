-- ===== src/Js/Operators.antt =====
-- `??`, `v * 1`, the length of a value, and `join(',')`.
use Prim.Native.Char.{Char}
use ax_ui.Common.{suc, Bool, true, false, not, String, ◌==◌, if◌then◌else◌, Result, ok, type_error}
use ax_ui.Common.Int.{pos}
use ax_ui.Js.{
  Value, null, bool, num, nat, str, arr, obj, cons, is_nullish, property, to_text, join_text,
}

-- `a ?? b`
abbrev pub or_nullish : Value → Value → Value
or_nullish a b = if is_nullish a then b else a

-- `v * 1`, given what `Number` makes of a text.
unfoldable pub times_one : (String → Value) → Value → Value
times_one number null = nat 0
times_one number (bool false) = nat 0
times_one number (bool true) = nat 1
times_one number (num z) = num z
times_one number v = number (to_text v)

-- `n > 0`, for a length.
abbrev is_positive : Value → Bool
is_positive (num (pos (suc n))) = true
is_positive v = false

-- `v?.length > 0`; only texts, arrays and objects of such a property have a length.
abbrev pub has_length : Value → Bool
has_length (str s) = not (s == "")
has_length (arr (cons v vs)) = true
has_length (obj ps) = is_positive (property "length" ps)
has_length v = false

-- The separator of lists in a text.
abbrev pub comma : Char
comma = ","

-- `v.join(',')`; only an array has `join`.
abbrev pub join_commas : Value → Result Value
join_commas (arr vs) = ok (str (join_text "," vs))
join_commas v = type_error
