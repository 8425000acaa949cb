-- ===== src/Inbound/Fallback.antt =====
-- `Inbound.VLESSSettings.Fallback` and `Inbound.TrojanSettings.Fallback`
-- (web/assets/js/model/inbound.js), which are written alike.
use ax_ui.Common.{◌≡◌, refl, true, List, [], ◌∷◌, map, Result, ok, type_error, ◌>>=◌, traverse, All}
use ax_ui.Js.{Value, nat, num, str, arr, obj, nil, entries, default, reader, elements, of_list}
use ax_ui.Js.Json.{erase, is_json, default-erase}
use ax_ui.Js.Lookup.{reader-erase}
use ax_ui.Js.Arrays.{ReadsBack, traverse-ReadsBack, erase-arr}
use ax_ui.ObjectUtil.{char_values}

pub record Fallback : Type 0 where
  pub name : Value
  pub alpn : Value
  pub path : Value
  pub dest : Value
  pub xver : Value

abbrev pub new : Fallback
new = record { name = str ""; alpn = str ""; path = str ""; dest = str ""; xver = nat 0 }

-- `Number.isInteger(v) ? v : 0`
abbrev pub integer_or_zero : Value → Value
integer_or_zero (num z) = num z
integer_or_zero v = nat 0

unfoldable pub to_json : Fallback → Result Value
to_json f = ok (
    obj (
      entries (
        ("name", f.name)
        ∷ ("alpn", f.alpn)
        ∷ ("path", f.path)
        ∷ ("dest", f.dest)
        ∷ ("xver", integer_or_zero f.xver)
        ∷ [])))

unfoldable pub element : Value → Result Fallback
element v = do
  at ← reader v
  ok (record {
    name = default new.name (at "name");
    alpn = default new.alpn (at "alpn");
    path = default new.path (at "path");
    dest = default new.dest (at "dest");
    xver = default new.xver (at "xver");
  })

-- `for (… of json)`: an array or a text can be iterated.
abbrev iterated : Value → Result (List Value)
iterated (arr vs) = ok (elements vs)
iterated (str s) = ok (elements (char_values s))
iterated v = type_error

-- `fromJson`, of the whole list.
unfoldable pub from_json : Value → Result (List Fallback)
from_json json = do vs ← iterated (default (arr nil) json); traverse element vs

pub record IsJson (f : Fallback) : Type 0 where
  pub name : is_json f.name ≡ true
  pub alpn : is_json f.alpn ≡ true
  pub path : is_json f.path ≡ true
  pub dest : is_json f.dest ≡ true

-- What is kept: `xver` if it is an integer, and 0 for anything else.
abbrev pub kept_xver : Value → Value
kept_xver (num z) = num z
kept_xver _ = nat 0

abbrev pub kept : Fallback → Fallback
kept f = record f { xver = kept_xver f.xver }

xver_back : (v : Value) → default (nat 0) (erase (integer_or_zero v)) ≡ kept_xver v
unfolding erase
xver_back (num z) = refl
xver_back _ = refl

element-to_json : (f : Fallback) → IsJson f → ReadsBack to_json element kept f
unfolding to_json element
element-to_json f h = (
  _,
  refl,
  refl,
  rw (reader-erase _ _ refl) (simp (default-erase, xver_back, h.name, h.alpn, h.path, h.dest)),
)

each-ReadsBack : (fs : List Fallback) → All IsJson fs → All (ReadsBack to_json element kept) fs
each-ReadsBack [] h = tt
each-ReadsBack (f ∷ fs) h = (element-to_json f h.0, each-ReadsBack fs h.1)

-- A list of fallbacks comes back from JSON, with 0 for an `xver` that is no integer.
pub from_json-to_json :
    (fs : List Fallback)
    → All IsJson fs
    → (vs : List Value) × (traverse to_json fs ≡ ok vs)
      × (from_json (erase (arr (of_list vs))) ≡ ok (map kept fs))
unfolding from_json
from_json-to_json fs h =
    let (vs, ws, rs) = traverse-ReadsBack to_json element kept fs (each-ReadsBack fs h) in
    (vs, ws, rw (erase-arr (of_list vs)) rs)

-- An empty array gives no fallback.
pub from_json_empty : from_json (arr nil) ≡ ok []
unfolding from_json traverse
from_json_empty = refl
