-- ===== src/Js/Text.antt =====
-- `s.split(sep)` for a separator of one character, and how `join` takes it back.
use Prim.Native.Char.{Char, code}
use Prim.Native.String.{[], ◌∷◌}
use text.Mathlib.TextLemmas.{cons-append, nil-append, cons-ne-nil}
use text.Mathlib.TextEquality.{Char-path}
use mathlib.Core.Path.{ap₂}
use ax_ui.Common.{
  ◌≡◌, refl, ap, ◌∙◌, String, List, eqb, if◌then◌else◌, arith, ◌⊎◌, inl, inr, Bool-cases, ◌==◌,
  false, eq_iff,
}
use ax_ui.Common
use ax_ui.Js.{strings, join_text}

abbrev push_front : Char → List String → List String
push_front c Common.[] = Common.◌∷◌ (c ∷ []) Common.[]
push_front c (Common.◌∷◌ p ps) = Common.◌∷◌ (c ∷ p) ps

unfoldable pub split : Char → String → List String
split sep [] = Common.◌∷◌ "" Common.[]
split sep (c ∷ s) =
    let rest = split sep s in
    if eqb (code c) (code sep) then Common.◌∷◌ "" rest else push_front c rest

split_nonempty :
    (sep : Char) (s : String) → (p : String) × (ps : List String) × (split sep s ≡ Common.◌∷◌ p ps)
unfolding split
split_nonempty sep [] = ("", Common.[], refl)
split_nonempty sep (c ∷ s) =
    let (p, ps, e) = split_nonempty sep s in
    elim (Bool-cases (eqb (code c) (code sep))) [
      | inl y ↦ ("", split sep s, rw y)
      | inr n ↦ (c ∷ p, ps, rw (n, e))
    ]

join-empty_first :
    (sep : Char) (p : String) (ps : List String)
    → join_text (sep ∷ []) (strings (Common.◌∷◌ "" (Common.◌∷◌ p ps)))
      ≡ sep ∷ join_text (sep ∷ []) (strings (Common.◌∷◌ p ps))
unfolding join_text
join-empty_first sep p ps = simp (nil-append, cons-append)

join-push_front :
    (sep : String) (c : Char) (p : String) (ps : List String)
    → join_text sep (strings (push_front c (Common.◌∷◌ p ps)))
      ≡ c ∷ join_text sep (strings (Common.◌∷◌ p ps))
unfolding join_text
join-push_front sep c p ps = cons-append c p _

-- Joining the parts of a text gives the text back.
pub join-split : (sep : Char) (s : String) → join_text (sep ∷ []) (strings (split sep s)) ≡ s
unfolding split
join-split sep [] = unfold join_text in refl
join-split sep (c ∷ s) =
    let (p, ps, e) = split_nonempty sep s in
    let back = join-split sep s in
    elim (Bool-cases (eqb (code c) (code sep))) [
      | inl y ↦
          rw (y, e)
            (join-empty_first sep p ps
              ∙ ap₂ {C = String} ◌∷◌ (Char-path sep c (ground (arith, y))) (rw e at back))
      | inr n ↦ rw (n, e) (join-push_front _ c p ps ∙ ap (λ t. c ∷ t) (rw e at back))
    ]

pub not_empty_cons : (c : Char) (s : String) → ((c ∷ s) == "") ≡ false
not_empty_cons c s = elim (Bool-cases ((c ∷ s) == "")) [
  | inl y ↦ absurd (cons-ne-nil c s ((eq_iff (c ∷ s) "").0 y))
  | inr n ↦ n
]
