-- ===== src/Outbound/ParamLink/Lookup.antt =====
-- Parameters among those of a link (web/assets/js/model/inbound.js and outbound.js).
use ax_ui.Common.{
  ◌≡◌, refl, Bool, true, false, not, ◌&&◌, List, [], ◌∷◌, ◌++◌, String, Option, none, some, All,
  if◌then◌else◌, arith,
}
use ax_ui.Js.{Value, str, to_text}
use ax_ui.Js.Given.{has_name}
use ax_ui.Inbound.VmessLink.{Fields}
use ax_ui.Outbound.ParamLink.{text_or}
use ax_ui.Outbound.ParamLink.Carried.{text, shown, text_at}

-- A parameter behind others of other names.
pub text_at-append :
    (k : String) (xs ys : Fields) → has_name k xs ≡ false → text_at k (xs ++ ys) ≡ text_at k ys
text_at-append k [] ys h = refl
text_at-append k ((b, j, v) ∷ xs) ys h = ground (arith, text_at-append k xs ys)

abbrev pub none_named : List String → Fields → Bool
none_named [] fs = true
none_named (k ∷ ks) fs = not (has_name k fs) && none_named ks fs

pub All-clear :
    (ks : List String) (fs : Fields)
    → none_named ks fs ≡ true
    → All (λ (k : String). has_name k fs ≡ false) ks
All-clear [] fs h = tt
All-clear (k ∷ ks) fs h = (ground (arith, h), All-clear ks fs (ground (arith, h)))

-- The parameters that the security sets.
abbrev pub security_names : List String
security_names =
    "security" ∷ "fp" ∷ "alpn" ∷ "sni" ∷ "ech" ∷ "flow" ∷ "pbk" ∷ "sid" ∷ "spx" ∷ "pqv" ∷ []

-- The same texts are found under those names.
pub record Sees (get : String → Option String) (fs : Fields) : Type 0 where
  pub security : get "security" ≡ text_at "security" fs
  pub fp : get "fp" ≡ text_at "fp" fs
  pub alpn : get "alpn" ≡ text_at "alpn" fs
  pub sni : get "sni" ≡ text_at "sni" fs
  pub ech : get "ech" ≡ text_at "ech" fs
  pub flow : get "flow" ≡ text_at "flow" fs
  pub pbk : get "pbk" ≡ text_at "pbk" fs
  pub sid : get "sid" ≡ text_at "sid" fs
  pub spx : get "spx" ≡ text_at "spx" fs
  pub pqv : get "pqv" ≡ text_at "pqv" fs

pub sees :
    (xs ys : Fields) → none_named security_names xs ≡ true → Sees (λ k. text_at k (xs ++ ys)) ys
sees xs ys h =
    let c = All-clear security_names xs h in
    record {
      security = text_at-append "security" xs ys (c.0);
      fp = text_at-append "fp" xs ys (c.1.0);
      alpn = text_at-append "alpn" xs ys (c.1.1.0);
      sni = text_at-append "sni" xs ys (c.1.1.1.0);
      ech = text_at-append "ech" xs ys (c.1.1.1.1.0);
      flow = text_at-append "flow" xs ys (c.1.1.1.1.1.0);
      pbk = text_at-append "pbk" xs ys (c.1.1.1.1.1.1.0);
      sid = text_at-append "sid" xs ys (c.1.1.1.1.1.1.1.0);
      spx = text_at-append "spx" xs ys (c.1.1.1.1.1.1.1.1.0);
      pqv = text_at-append "pqv" xs ys (c.1.1.1.1.1.1.1.1.1.0);
    }

-- What is read of a text that is there under a condition.
pub shown_back :
    (b : Bool) (v : Value) → str (text_or "" (if b then some (to_text v) else none)) ≡ shown b v
shown_back true v = refl
shown_back false v = refl

pub print_back :
    (b : Bool) (v : Value)
    → str (text_or "none" (if b then some (to_text v) else none))
      ≡ (if b then text v else str "none")
print_back true v = refl
print_back false v = refl
