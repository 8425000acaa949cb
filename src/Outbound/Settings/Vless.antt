-- ===== src/Outbound/Settings/Vless.antt =====
-- `Outbound.VLESSSettings` (web/assets/js/model/outbound.js). The number of bytes before a handshake,
-- `testpre`, is compared with 0; what `Number` makes of a text is an argument.
use Prim.Native.Char.{code}
use ax_ui.Common.{
  ◌≡◌, refl, true, false, not, ◌&&◌, ◌||◌, ℕ, zero, suc, ◌+◌, Bool, String, List, [], ◌∷◌, Result,
  ok, ◌>>=◌, if◌then◌else◌, ◌==◌, leb, ltb, length, Bool-cases, inl, inr, arith,
}
use ax_ui.Common.Int.{pos, negsuc}
use ax_ui.Js.{
  undefined, null, Value, bool, num, nat, str, arr, obj, nil, cons, or_value, truthy, equals_text,
  elements, property, to_text,
}
use ax_ui.Js.Json.{erase, is_json, is_optional, erase-is_json, erase_optional}
use ax_ui.Js.Lookup.{open_json, open_json-erase, erase-undefined}
use ax_ui.Js.Elements.{four_or_more, leb-four_or_more}
use ax_ui.Js.Given.{given, property-given, distinct_keys-given}
use ax_ui.ObjectUtil.{is_empty}

pub record VlessSettings : Type 0 where
  pub address : Value
  pub port : Value
  pub id : Value
  pub flow : Value
  pub encryption : Value
  pub testpre : Value
  pub testseed : Value

abbrev pub default_testseed : Value
default_testseed = arr (cons (nat 900) (cons (nat 500) (cons (nat 900) (cons (nat 256) nil))))

-- The constructor with no argument.
abbrev pub new : VlessSettings
new = record {
  address = undefined;
  port = undefined;
  id = undefined;
  flow = undefined;
  encryption = undefined;
  testpre = nat 0;
  testseed = default_testseed;
}

-- The length of a text counts a character outside the basic plane twice.
units : String → ℕ
units String.[] = 0
units (String.◌∷◌ c s) = (if ltb 65535 (code c) then 2 else 1) + units s

abbrev at_least_four : Value → Bool
at_least_four (num (pos n)) = leb 4 n
at_least_four v = false

-- `v && v.length >= 4`; an object is read through a numeric `length`.
unfoldable pub has_four : Value → Bool
unfolding units
has_four (arr vs) = leb 4 (length (elements vs))
has_four (str s) = leb 4 (units s)
has_four (obj ps) = at_least_four (property "length" ps)
has_four v = false

unfoldable pub testseed_of : Value → Value
testseed_of v = if has_four v then v else default_testseed

-- `json.testpre || 0` and the test seed; an address or a port that is empty gives new settings.
unfoldable pub from_json : Value → Result VlessSettings
from_json json = do
  at ← open_json json
  ok (
      if is_empty (at "address") || is_empty (at "port") then new else record {
        address = at "address";
        port = at "port";
        id = at "id";
        flow = at "flow";
        encryption = at "encryption";
        testpre = or_value (at "testpre") (nat 0);
        testseed = testseed_of (at "testseed");
      })

abbrev above_zero : Value → Bool
above_zero (num (pos (suc n))) = true
above_zero v = false

-- A text compares as the number that it stands for, the empty one as 0.
abbrev text_above_zero : (String → Value) → String → Bool
text_above_zero number t = if t == "" then false else above_zero (number t)

-- `v > 0`, given what `Number` makes of a text.
unfoldable pub positive : (String → Value) → Value → Bool
positive number (bool b) = b
positive number (num z) = above_zero (num z)
positive number (str t) = text_above_zero number t
positive number (arr vs) = text_above_zero number (to_text (arr vs))
positive number (obj ps) = text_above_zero number (to_text (obj ps))
positive number v = false

-- `this.flow && this.flow !== ''`
abbrev pub has_flow : VlessSettings → Bool
has_flow s = truthy s.flow && not (equals_text s.flow "")

-- The properties, with the condition under which `toJson` sets each.
abbrev fields : (String → Value) → VlessSettings → List (Bool × String × Value)
fields number s =
    (true, "address", s.address)
    ∷ (true, "port", s.port)
    ∷ (true, "id", s.id)
    ∷ (true, "flow", s.flow)
    ∷ (true, "encryption", s.encryption)
    ∷ (has_flow s && positive number s.testpre, "testpre", s.testpre)
    ∷ (has_flow s && has_four s.testseed, "testseed", s.testseed)
    ∷ []

unfoldable pub to_json : (String → Value) → VlessSettings → Value
to_json number s = obj (given (fields number s))

-- Every field holds a value that JSON can write, or one of the first five is `undefined`.
pub record IsJson (s : VlessSettings) : Type 0 where
  pub address : is_optional s.address ≡ true
  pub port : is_optional s.port ≡ true
  pub id : is_optional s.id ≡ true
  pub flow : is_optional s.flow ≡ true
  pub encryption : is_optional s.encryption ≡ true
  pub testpre : is_json s.testpre ≡ true
  pub testseed : is_json s.testseed ≡ true

-- What is positive, as a number: 1 and more, `true`, and a text (or what an array or an object has for a text)
-- that is not empty and stands for such a number.
abbrev is_positive : Value → Bool
is_positive (num (pos (suc n))) = true
is_positive _ = false

abbrev counts : (String → Value) → Value → Bool
counts number undefined = false
counts number null = false
counts number (bool b) = b
counts number (num z) = is_positive (num z)
counts number (str t) = not (t == "") && is_positive (number t)
counts number v = not (to_text v == "") && is_positive (number (to_text v))

above_zero-is_positive : (v : Value) → above_zero v ≡ is_positive v
above_zero-is_positive (num (pos (suc n))) = refl
above_zero-is_positive (num (pos zero)) = refl
above_zero-is_positive (num (negsuc n)) = refl
above_zero-is_positive _ = refl

positive-counts : (number : String → Value) (v : Value) → positive number v ≡ counts number v
unfolding positive
positive-counts number undefined = refl
positive-counts number null = refl
positive-counts number (bool b) = refl
positive-counts number (num z) = above_zero-is_positive (num z)
positive-counts number (str t) = ground (arith, above_zero-is_positive (number t))
positive-counts number (arr vs) = ground (arith, above_zero-is_positive (number (to_text (arr vs))))
positive-counts number (obj ps) = ground (arith, above_zero-is_positive (number (to_text (obj ps))))

-- A test seed is an array of four elements or more, or what else has such a length.
abbrev has_seed : Value → Bool
has_seed (arr vs) = four_or_more vs
has_seed v = has_four v

has_four-has_seed : (v : Value) → has_four v ≡ has_seed v
unfolding has_four
has_four-has_seed (arr vs) = leb-four_or_more vs
has_four-has_seed _ = refl

-- What is kept: nothing where the address or the port is empty; else `testpre` where it is positive and
-- the test seed where it has four elements, both only with a flow.
abbrev pub kept : (String → Value) → VlessSettings → VlessSettings
kept number s = if is_empty s.address || is_empty s.port then new else record s {
  testpre = if has_flow s && counts number s.testpre then s.testpre else nat 0;
  testseed = if has_flow s && has_seed s.testseed then s.testseed else default_testseed;
}

or_positive : (number : String → Value) (v d : Value) → positive number v ≡ true → or_value v d ≡ v
unfolding positive
or_positive number v d h = ground arith

testpre_back :
    (number : String → Value) (b : Bool) (v : Value)
    → is_json v ≡ true
    → or_value (erase (if b && positive number v then v else undefined)) (nat 0)
      ≡ (if b && counts number v then v else nat 0)
testpre_back number b v h =
    rw (← positive-counts number v) (elim (Bool-cases (b && positive number v)) [
      | inl y ↦ rw y (rw (erase-is_json v h) (or_positive number v (nat 0) (ground (arith, y))))
      | inr n ↦ rw n (rw erase-undefined)
    ])

testseed_back :
    (b : Bool) (v : Value)
    → is_json v ≡ true
    → testseed_of (erase (if b && has_four v then v else undefined))
      ≡ (if b && has_seed v then v else default_testseed)
unfolding testseed_of
testseed_back b v h = rw (← has_four-has_seed v) (elim (Bool-cases (b && has_four v)) [
  | inl y ↦ rw y (rw (erase-is_json v h) (ground (arith, y)))
  | inr n ↦ rw n (rw erase-undefined (unfold has_four in refl))
])

-- `fromJson` gives back the VLESS settings that `toJson` and JSON wrote, without `testpre` and the test
-- seed where there is no flow, and new settings where the address or the port is empty, if JSON can write
-- each field.
pub from_json-to_json :
    (number : String → Value) (s : VlessSettings)
    → IsJson s
    → from_json (erase (to_json number s)) ≡ ok (kept number s)
unfolding from_json to_json
from_json-to_json number s h =
    let at = λ (k : String). property-given k (fields number s) refl in
    rw (open_json-erase _ _ (distinct_keys-given (fields number s) refl)) (
      rw (at "address", at "port", at "id", at "flow", at "encryption", at "testpre", at "testseed")
        (rw (
          testpre_back number (has_flow s) s.testpre h.testpre,
          testseed_back (has_flow s) s.testseed h.testseed,
          erase_optional s.address h.address,
          erase_optional s.port h.port,
          erase_optional s.id h.id,
          erase_optional s.flow h.flow,
          erase_optional s.encryption h.encryption,
        )))
