-- ===== src/Outbound/VmessLink/Values.antt =====
-- The values of a VMess link, written and read (web/assets/js/model/inbound.js and outbound.js).
use Prim.Native.String
use text.Mathlib.TextLemmas.{cons-append}
use ax_ui.Common.{
  ◌≡◌, refl, ap, sym, ◌∙◌, Bool, true, false, not, ◌&&◌, List, [], ◌∷◌, String, ◌==◌, ok,
  if◌then◌else◌, Bool-cases, inl, inr, arith, eq_iff,
}
use ax_ui.Common.Int.{ℤ}
use ax_ui.Js.{
  Value, undefined, num, str, arr, strings, default, truthy, or_value, equals_text, equals_loose,
  is_string, is_array, join_text, join_rest,
}
use ax_ui.Js.Json.{erase, is_json, default-erase, erase-is_json}
use ax_ui.Js.Lookup.{erase-undefined}
use ax_ui.Js.Joined.{split-join_text}
use ax_ui.Js.Operators.{or_nullish, times_one, has_length, join_commas, comma}
use ax_ui.Js.Text.{not_empty_cons}
use ax_ui.Js.Part.{when}
use ax_ui.ObjectUtil.{is_empty}
use ax_ui.Inbound.VmessLink.{alpn_text}
use ax_ui.Outbound.VmessLink.{split_truthy}
use ax_ui.Outbound.VmessLink.Carried.{joined, or_empty, AreNames}

-- A value that is written where it is not empty.
pub shown_back :
    (v : Value)
    → is_json v ≡ true
    → default (str "") (erase (if not (is_empty v) then v else undefined)) ≡ or_empty v
shown_back v h = elim (Bool-cases (is_empty v)) [
  | inl y ↦ rw y (rw erase-undefined)
  | inr n ↦ rw n (default-erase (str "") v h)
]

append_nonempty : (p t : String) → (p == "") ≡ false → (String.◌++◌ p t == "") ≡ false
append_nonempty String.[] t h = cc
append_nonempty (String.◌∷◌ c p) t h = rw (cons-append c p t) (not_empty_cons c (String.◌++◌ p t))

pub joined_nonempty :
    (p : String) (ps : List String)
    → (p == "") ≡ false
    → (join_text "," (strings (p ∷ ps)) == "") ≡ false
unfolding join_text
joined_nonempty p ps n = append_nonempty p (join_rest "," (strings ps)) n

-- The list of protocols as a text between commas, split again.
pub alpn_back :
    (ps : List String)
    → AreNames ps
    → (v : Value) × (alpn_text (arr (strings ps)) ≡ ok v)
      × (split_truthy (erase (if has_length (arr (strings ps)) then v else undefined))
          ≡ ok (arr (strings ps)))
unfolding split_truthy is_json
alpn_back [] h = (undefined, refl, rw erase-undefined)
alpn_back (p ∷ ps) (n, c) =
    let text = join_text "," (strings (p ∷ ps)) in
    (
      str text,
      refl,
      rw (erase-is_json (str text) refl) (
          rw (joined_nonempty p ps n)
            (ap (λ l. ok (arr (strings l))) (split-join_text comma p ps c))),
    )

pub multi_back :
    (b : Bool) → equals_loose (erase (if b then str "multi" else undefined)) "multi" ≡ b
unfolding erase
multi_back true = refl
multi_back false = refl

pub nullish_back :
    (b : Bool) (v : Value)
    → is_json v ≡ true
    → or_nullish (erase (if b && truthy v then v else undefined)) (str "")
      ≡ (if b then or_value v (str "") else str "")
nullish_back b v h = elim (Bool-cases (b && truthy v)) [
  | inl y ↦ rw y (rw (erase-is_json v h) (ground arith))
  | inr n ↦ rw n (rw erase-undefined (ground arith))
]

pub is_json-string : (v : Value) → is_string v ≡ true → is_json v ≡ true
unfolding is_json
is_json-string (str s) h = refl
is_json-string _ h = cc

pub path_back :
    (b : Bool) (v : Value)
    → (b ≡ true → is_array v ≡ true)
    → (w : Value) × (when b (join_commas v) ≡ ok w)
      × (or_nullish (erase (if b then w else undefined)) (str "")
          ≡ (if b then joined v else str ""))
path_back false v h = (undefined, refl, unfold erase in refl)
path_back true (arr vs) h = (
  str (join_text "," vs),
  refl,
  rw (erase-is_json (str (join_text "," vs)) (is_json-string _ refl)) refl,
)
path_back true _ h = absurd (cc (h refl))

-- TLS is read exactly where it was written.
pub tls_text :
    (v : Value) → is_string v ≡ true → (truthy v && equals_loose v "tls") ≡ equals_text v "tls"
tls_text (str t) h = elim (Bool-cases (t == "tls")) [
  | inl y ↦ ap (λ u. not (u == "") && (u == "tls")) ((eq_iff t "tls").0 y) ∙ sym y
  | inr n ↦ rw n (ground arith)
]
tls_text _ h = cc

pub number_back :
    (number : String → Value) (v : Value) (z : ℤ) → v ≡ num z → times_one number (erase v) ≡ v
unfolding times_one erase
number_back number v z e = rw e refl
