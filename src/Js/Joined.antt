-- ===== src/Js/Joined.antt =====
-- `split` takes a joined list of texts apart where none has the separator in it.
use Prim.Native.Char.{Char, code}
use Prim.Native.String.{[], ◌∷◌, ◌++◌}
use text.Mathlib.TextLemmas.{cons-append, nil-append, append-nil}
use ax_ui.Common.{
  ◌≡◌, refl, ap, ◌∙◌, String, List, Bool, true, false, ◌||◌, ◌&&◌, not, eqb, if◌then◌else◌, arith,
}
use ax_ui.Common
use ax_ui.Js.{strings, join_text, join_rest}
use ax_ui.Js.Text.{split}

-- The text has the character in it.
unfoldable pub has_char : Char → String → Bool
has_char sep [] = false
has_char sep (c ∷ s) = let rest = has_char sep s in if eqb (code c) (code sep) then true else rest

-- None of the texts has the character in it.
unfoldable pub none_has_char : Char → List String → Bool
none_has_char sep Common.[] = true
none_has_char sep (Common.◌∷◌ p ps) = not (has_char sep p) && none_has_char sep ps

not_first :
    (sep c : Char) (p : String) → has_char sep (c ∷ p) ≡ false → eqb (code c) (code sep) ≡ false
unfolding has_char
not_first sep c p h = ground (arith, h)

not_rest : (sep c : Char) (p : String) → has_char sep (c ∷ p) ≡ false → has_char sep p ≡ false
unfolding has_char
not_rest sep c p h = ground (arith, h)

split-append :
    (sep : Char) (p s : String)
    → has_char sep p ≡ false
    → split sep (p ++ (sep ∷ s)) ≡ Common.◌∷◌ p (split sep s)
unfolding split has_char
split-append sep [] s h = rw (nil-append (sep ∷ s)) (ground arith)
split-append sep (c ∷ p) s h =
    rw (cons-append c p (sep ∷ s))
      (rw (not_first sep c p h) (rw (split-append sep p s (not_rest sep c p h)) refl))

split-plain :
    (sep : Char) (p : String) → has_char sep p ≡ false → split sep p ≡ Common.◌∷◌ p Common.[]
unfolding split
split-plain sep [] h = refl
split-plain sep (c ∷ p) h =
    rw (not_first sep c p h) (rw (split-plain sep p (not_rest sep c p h)) refl)

split-joined :
    (sep : Char) (p : String) (ps : List String)
    → has_char sep p ≡ false
    → none_has_char sep ps ≡ true
    → split sep (p ++ join_rest (sep ∷ []) (strings ps)) ≡ Common.◌∷◌ p ps
unfolding join_text none_has_char
split-joined sep p Common.[] h k = rw (append-nil p) (split-plain sep p h)
split-joined sep p (Common.◌∷◌ q qs) h k =
    rw
      (
        cons-append sep [] (q ++ join_rest (sep ∷ []) (strings qs)),
        nil-append (q ++ join_rest (sep ∷ []) (strings qs)),
      )
      (rw (split-append sep p (q ++ join_rest (sep ∷ []) (strings qs)) h)
        (ap (Common.◌∷◌ p) (split-joined sep q qs (ground (arith, k)) (ground (arith, k)))))

-- Splitting a joined list of texts gives the list back, if there is a text and none has the separator in it.
pub split-join_text :
    (sep : Char) (p : String) (ps : List String)
    → none_has_char sep (Common.◌∷◌ p ps) ≡ true
    → split sep (join_text (sep ∷ []) (strings (Common.◌∷◌ p ps))) ≡ Common.◌∷◌ p ps
unfolding join_text none_has_char
split-join_text sep p ps h = split-joined sep p ps (ground (arith, h)) (ground (arith, h))
