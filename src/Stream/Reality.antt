-- ===== src/Stream/Reality.antt =====
-- `RealityStreamSettings` (web/assets/js/model/inbound.js). What the code draws at random, short ids
-- and a target of `getRandomRealityTarget` (web/assets/js/model/reality_targets.js), is an argument.
pub mod Settings
use Prim.Native.Char.{Char}
use ax_ui.Common.{
  ◌≡◌, refl, ap, ◌∙◌, true, false, List, [], ◌∷◌, Result, ok, type_error, ◌>>=◌, String,
  if◌then◌else◌, Bool, ◌&&◌, not, arith,
}
use ax_ui.Js.{
  Value, undefined, bool, nat, str, arr, obj, Values, entries, default, reader, strings, truthy,
  is_string, join_text, is_undefined,
}
use ax_ui.Js.Json.{erase, is_json, default-erase}
use ax_ui.Js.Elements.{erase-strings}
use ax_ui.Js.Text.{split, join-split}
use ax_ui.Js.Lookup.{open_json, open_json-erase, open_json-undefined}
use ax_ui.ObjectUtil.{is_empty}

-- One outcome of the random choices.
pub record Random : Type 0 where
  pub short_ids : Value
  pub target : Value
  pub sni : Value

pub record Reality : Type 0 where
  pub show : Value
  pub xver : Value
  pub target : Value
  pub server_names : Value
  pub private_key : Value
  pub min_client_ver : Value
  pub max_client_ver : Value
  pub max_timediff : Value
  pub short_ids : Value
  pub mldsa65_seed : Value
  pub settings : Settings.Settings

abbrev comma : Char
comma = ","

-- `Array.isArray(v) ? v.join(",") : v`
abbrev joined : Value → Value
joined (arr vs) = str (join_text "," vs)
joined v = v

-- The target and the server names; random ones where neither is given.
abbrev pick_target : Random → Value → Value → Value × Value
pick_target random target names =
    if not (truthy target) && not (truthy names)
    then (random.target, random.sni)
    else (target, names)

-- The constructor, its settings apart.
unfoldable pub create : Random → (String → Value) → Settings.Settings → Reality
create random at settings =
    let (target, names) =
      pick_target random (default (str "") (at "target")) (default (str "") (at "serverNames")) in
    record {
      show = default (bool false) (at "show");
      xver = default (nat 0) (at "xver");
      target = target;
      server_names = joined names;
      private_key = default (str "") (at "privateKey");
      min_client_ver = default (str "") (at "minClientVer");
      max_client_ver = default (str "") (at "maxClientVer");
      max_timediff = default (nat 0) (at "maxTimediff");
      short_ids = joined (default random.short_ids (at "shortIds"));
      mldsa65_seed = default (str "") (at "mldsa65Seed");
      settings = settings;
    }

-- The constructor with no argument.
abbrev pub new : Random → Reality
new random = create random (λ k. undefined) Settings.new

unfoldable pub settings_of : Value → Result Settings.Settings
settings_of v = if is_empty v then ok Settings.new else (do at ← reader v; ok (Settings.of_json at))

unfoldable pub from_json : Random → Value → Result Reality
from_json random json = do
  at ← open_json json
  settings ← settings_of (at "settings")
  ok (create random at settings)

-- `v.split(",")`; only a text has `split`.
abbrev pub split_commas : Value → Result Value
split_commas (str s) = ok (arr (strings (split comma s)))
split_commas v = type_error

abbrev object : Reality → Value → Value → Value
object s names ids = obj (
    entries (
      ("show", s.show)
      ∷ ("xver", s.xver)
      ∷ ("target", s.target)
      ∷ ("serverNames", names)
      ∷ ("privateKey", s.private_key)
      ∷ ("minClientVer", s.min_client_ver)
      ∷ ("maxClientVer", s.max_client_ver)
      ∷ ("maxTimediff", s.max_timediff)
      ∷ ("shortIds", ids)
      ∷ ("mldsa65Seed", s.mldsa65_seed)
      ∷ ("settings", Settings.to_json s.settings)
      ∷ []))

unfoldable pub to_json : Reality → Result Value
to_json s = do
  names ← split_commas s.server_names
  ids ← split_commas s.short_ids
  ok (object s names ids)

-- Every field holds a value that JSON can write; the names and the ids are texts.
pub record IsJson (s : Reality) : Type 0 where
  pub show : is_json s.show ≡ true
  pub xver : is_json s.xver ≡ true
  pub target : is_json s.target ≡ true
  pub server_names : is_string s.server_names ≡ true
  pub private_key : is_json s.private_key ≡ true
  pub min_client_ver : is_json s.min_client_ver ≡ true
  pub max_client_ver : is_json s.max_client_ver ≡ true
  pub max_timediff : is_json s.max_timediff ≡ true
  pub short_ids : is_string s.short_ids ≡ true
  pub mldsa65_seed : is_json s.mldsa65_seed ≡ true
  pub settings : Settings.IsJson s.settings

text_of : (v : Value) → is_string v ≡ true → (s : String) × (v ≡ str s)
text_of (str s) h = (s, refl)
text_of _ h = cc

joined-split :
    (d : Value) (s : String) → joined (default d (erase (arr (strings (split comma s))))) ≡ str s
joined-split d s = rw (erase-strings (split comma s)) (ap str (join-split comma s))

truthy-strings : (ss : List String) → truthy (default (str "") (erase (arr (strings ss)))) ≡ true
truthy-strings ss = rw (erase-strings ss)

and_false : (b : Bool) → (b && false) ≡ false
and_false true = refl
and_false false = refl

settings_of-erase :
    (s : Settings.Settings) → Settings.IsJson s → settings_of (erase (Settings.to_json s)) ≡ ok s
unfolding settings_of
settings_of-erase s h = rw (Settings.is_empty-to_json s) (Settings.reader-to_json s h)

read_back :
    (random : Random) (s : Reality) (names ids : String)
    → IsJson s
    → from_json random
        (erase (object s (arr (strings (split comma names))) (arr (strings (split comma ids)))))
      ≡ ok (record s { server_names = str names; short_ids = str ids })
unfolding from_json create
read_back random s names ids h = rw (open_json-erase _ _ refl) (
    rw (settings_of-erase s.settings h.settings) (
      simp (
        truthy-strings, and_false, joined-split, default-erase, h.show, h.xver, h.target,
        h.private_key, h.min_client_ver, h.max_client_ver, h.max_timediff, h.mldsa65_seed,
      )))

-- `fromJson` gives back the REALITY settings that `toJson` and JSON wrote, whatever the random
-- choices, if JSON can write each field and the server names and short ids are texts.
pub from_json-to_json :
    (random : Random) (s : Reality)
    → IsJson s
    → (v : Value) × (to_json s ≡ ok v) × (from_json random (erase v) ≡ ok s)
unfolding to_json
from_json-to_json random s h =
    let (names, en) = text_of s.server_names h.server_names in
    let (ids, ei) = text_of s.short_ids h.short_ids in
    (
      object s (arr (strings (split comma names))) (arr (strings (split comma ids))),
      ground (arith, en, ei),
      read_back random s names ids h ∙ ground (arith, en, ei),
    )

-- With no value at all `fromJson` gives the default settings.
pub from_json-undefined : (random : Random) → from_json random undefined ≡ ok (new random)
unfolding from_json settings_of
from_json-undefined random = rw (open_json-undefined _) refl
