-- ===== src/Js/Index.antt =====
-- `v[0]`, and the first element of an array that was written to JSON.
use Prim.Native.String
use ax_ui.Common.{◌≡◌, refl, false, Result, ok, type_error}
use ax_ui.Js.{Value, undefined, null, str, arr, obj, cons, nil, Props, property}
use ax_ui.Js.Json.{erase}
use ax_ui.ObjectUtil.{is_arr_empty}

-- `v[0]`
abbrev pub at_zero : Value → Result Value
at_zero undefined = type_error
at_zero null = type_error
at_zero (arr (cons v vs)) = ok v
at_zero (str (String.◌∷◌ c s)) = ok (str (String.◌∷◌ c ""))
at_zero (obj ps) = ok (property "0" ps)
at_zero v = ok undefined

pub at_zero-erase : (ps : Props) → at_zero (erase (arr (cons (obj ps) nil))) ≡ ok (erase (obj ps))
unfolding erase
at_zero-erase ps = refl

pub is_arr_empty-erase : (ps : Props) → is_arr_empty (erase (arr (cons (obj ps) nil))) ≡ false
unfolding erase
is_arr_empty-erase ps = refl
