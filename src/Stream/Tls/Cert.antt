-- ===== src/Stream/Tls/Cert.antt =====
-- `TlsStreamSettings.Cert` (web/assets/js/model/inbound.js).
use Prim.Native.Char.{Char}
use ax_ui.Common.{
  ◌≡◌, ap, ◌∙◌, refl, true, false, [], ◌∷◌, Result, ok, type_error, ◌>>=◌, if◌then◌else◌, ◌&&◌,
  Bool, Bool-cases, inl, inr, arith, String,
}
use ax_ui.Js.{is_undefined, undefined}
use ax_ui.Js.{
  Value, bool, str, arr, obj, end, entries, default, strings, join_text, in_value, reader,
  is_string, truthy,
}
use ax_ui.Js.Json.{erase, is_json, default-erase, is_json-not_undefined}
use ax_ui.Js.Elements.{erase-strings}
use ax_ui.Js.Text.{split, join-split}
use ax_ui.Js.Lookup.{reader-erase, default-erase_obj, in_value-erase}

pub record Cert : Type 0 where
  pub use_file : Value
  pub cert_file : Value
  pub key_file : Value
  pub cert : Value
  pub key : Value
  pub one_time_loading : Value
  pub usage : Value
  pub build_chain : Value

abbrev newline : Char
newline = "\n"

-- An array of lines becomes one text.
abbrev text_of_lines : Value → Value
text_of_lines (arr vs) = str (join_text "\n" vs)
text_of_lines v = v

-- The constructor.
abbrev pub create :
    (use_file cert_file key_file cert key one_time_loading usage build_chain : Value) → Cert
create use_file cert_file key_file cert key one_time_loading usage build_chain = record {
  use_file = default (bool true) use_file;
  cert_file = default (str "") cert_file;
  key_file = default (str "") key_file;
  cert = text_of_lines (default (str "") cert);
  key = text_of_lines (default (str "") key);
  one_time_loading = default (bool false) one_time_loading;
  usage = default (str "encipherment") usage;
  build_chain = default (bool false) build_chain;
}

-- `v.join('\n')` and `v.split('\n')`.
abbrev join_lines : Value → Result Value
join_lines (arr vs) = ok (str (join_text "\n" vs))
join_lines v = type_error

abbrev split_lines : Value → Result Value
split_lines (str s) = ok (arr (strings (split newline s)))
split_lines v = type_error

-- The two forms of a certificate in the configuration: files, or the texts themselves.
abbrev pick : Bool → (String → Value) → Result Cert
pick true at = ok (
    create (bool true) (at "certificateFile") (at "keyFile") (str "") (str "") (at "oneTimeLoading")
      (at "usage") (at "buildChain"))
pick false at = do
  cert ← join_lines (at "certificate")
  key ← join_lines (at "key")
  ok (
      create (bool false) (str "") (str "") cert key (at "oneTimeLoading") (at "usage")
        (at "buildChain"))

unfoldable pub from_json : Value → Result Cert
from_json json = do
  let cert = default (obj end) json
  file ← in_value "certificateFile" cert
  key ← in_value "keyFile" cert
  at ← reader cert
  pick (file && key) at

abbrev file_object : Cert → Value
file_object c = obj (
    entries (
      ("certificateFile", c.cert_file)
      ∷ ("keyFile", c.key_file)
      ∷ ("oneTimeLoading", c.one_time_loading)
      ∷ ("usage", c.usage)
      ∷ ("buildChain", c.build_chain)
      ∷ []))

abbrev text_object : Cert → Value → Value → Value
text_object c cert key = obj (
    entries (
      ("certificate", cert)
      ∷ ("key", key)
      ∷ ("oneTimeLoading", c.one_time_loading)
      ∷ ("usage", c.usage)
      ∷ ("buildChain", c.build_chain)
      ∷ []))

unfoldable pub to_json : Cert → Result Value
to_json c =
    if truthy c.use_file
    then ok (file_object c)
    else (do cert ← split_lines c.cert; key ← split_lines c.key; ok (text_object c cert key))

-- What is kept of a certificate: the files, or the texts.
abbrev pub kept : Cert → Cert
kept c =
    if truthy c.use_file
    then record c { use_file = bool true; cert = str ""; key = str "" }
    else record c { use_file = bool false; cert_file = str ""; key_file = str "" }

-- Every field holds a value that JSON can write, and the texts are texts.
pub record IsJson (c : Cert) : Type 0 where
  pub cert_file : is_json c.cert_file ≡ true
  pub key_file : is_json c.key_file ≡ true
  pub cert : is_string c.cert ≡ true
  pub key : is_string c.key ≡ true
  pub one_time_loading : is_json c.one_time_loading ≡ true
  pub usage : is_json c.usage ≡ true
  pub build_chain : is_json c.build_chain ≡ true

read_file :
    (c : Cert)
    → IsJson c
    → from_json (erase (file_object c))
      ≡ ok (record c { use_file = bool true; cert = str ""; key = str "" })
unfolding from_json
read_file c h = rw (default-erase_obj _ _) (
    rw (in_value-erase "certificateFile" _ refl, in_value-erase "keyFile" _ refl)
      (rw (reader-erase _ _ refl) (
        rw (is_json-not_undefined _ h.cert_file, is_json-not_undefined _ h.key_file)
          (simp
            (default-erase, h.cert_file, h.key_file, h.one_time_loading, h.usage, h.build_chain)))))

join-split_lines : (s : String) → join_lines (erase (arr (strings (split newline s)))) ≡ ok (str s)
join-split_lines s =
    rw (erase-strings (split newline s)) (ap (λ t. ok (str t)) (join-split newline s))

-- A text certificate, read with the values of its two properties.
read_text :
    (c : Cert) (cert key : Value) (s t : String)
    → IsJson c
    → join_lines (erase cert) ≡ ok (str s)
    → join_lines (erase key) ≡ ok (str t)
    → from_json (erase (text_object c cert key))
      ≡ ok (record c {
        use_file = bool false;
        cert_file = str "";
        key_file = str "";
        cert = str s;
        key = str t;
      })
unfolding from_json
read_text c cert key s t h ec ek = rw (default-erase_obj _ _) (
    rw (in_value-erase "certificateFile" _ refl, in_value-erase "keyFile" _ refl)
      (rw (reader-erase _ _ refl)
        (rw (ec, ek) (simp (default-erase, h.one_time_loading, h.usage, h.build_chain)))))

text_of : (v : Value) → is_string v ≡ true → (s : String) × (v ≡ str s)
text_of (str s) h = (s, refl)
text_of _ h = cc

-- A certificate comes back from the configuration with the half that it uses.
pub from_json-to_json :
    (c : Cert)
    → IsJson c
    → (v : Value) × (to_json c ≡ ok v)
      × (is_undefined v ≡ false)
      × (from_json (erase v) ≡ ok (kept c))
unfolding to_json
from_json-to_json c h = elim (Bool-cases (truthy c.use_file)) [
  | inl y ↦ (file_object c, rw y, refl, rw y (read_file c h))
  | inr n ↦
      let (s, es) = text_of c.cert h.cert in
      let (t, et) = text_of c.key h.key in
      let v = text_object c (arr (strings (split newline s))) (arr (strings (split newline t))) in
      (
        v,
        rw n (ground (arith, es, et)),
        refl,
        rw n (
            read_text c _ _ s t h (join-split_lines s) (join-split_lines t)
            ∙ ground (arith, es, et)),
      )
]

-- The constructor with no argument.
abbrev pub new : Cert
new = create undefined undefined undefined undefined undefined undefined undefined undefined
