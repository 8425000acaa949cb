-- ===== src/Js/Elements.antt =====
-- An array and the list of its elements.
use ax_ui.Common.{◌≡◌, refl, ap, Bool, true, false, leb, length, arith, String, List, [], ◌∷◌}
use ax_ui.Js.Json.{is_json, is_json_values, erase, erase-is_json}
use ax_ui.Js.{Value, arr, strings, Values, nil, cons, elements, of_list}

pub elements-of_list : (vs : List Value) → elements (of_list vs) ≡ vs
elements-of_list [] = refl
elements-of_list (v ∷ vs) = ap (λ l. v ∷ l) (elements-of_list vs)

pub of_list-elements : (vs : Values) → of_list (elements vs) ≡ vs
of_list-elements nil = refl
of_list-elements (cons v vs) = ap (cons v) (of_list-elements vs)

is_json_values-strings : (ss : List String) → is_json_values (strings ss) ≡ true
unfolding is_json
is_json_values-strings [] = refl
is_json_values-strings (s ∷ ss) = is_json_values-strings ss

pub is_json-strings : (ss : List String) → is_json (arr (strings ss)) ≡ true
unfolding is_json
is_json-strings ss = is_json_values-strings ss

pub erase-strings : (ss : List String) → erase (arr (strings ss)) ≡ arr (strings ss)
erase-strings ss = erase-is_json _ (is_json-strings ss)

-- An array of four elements or more.
abbrev pub four_or_more : Values → Bool
four_or_more (cons a (cons b (cons c (cons d vs)))) = true
four_or_more _ = false

pub leb-four_or_more : (vs : Values) → leb 4 (length (elements vs)) ≡ four_or_more vs
leb-four_or_more nil = refl
leb-four_or_more (cons a nil) = refl
leb-four_or_more (cons a (cons b nil)) = refl
leb-four_or_more (cons a (cons b (cons c nil))) = refl
leb-four_or_more (cons a (cons b (cons c (cons d vs)))) = ground arith
