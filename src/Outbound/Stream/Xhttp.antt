-- ===== src/Outbound/Stream/Xhttp.antt =====
-- `xHTTPStreamSettings` (web/assets/js/model/outbound.js).
use ax_ui.Common.{◌≡◌, refl, true, false, List, if◌then◌else◌, [], ◌∷◌, String, Result, ok, ◌>>=◌}
use ax_ui.Js.{
  undefined, null, Value, bool, num, nat, str, arr, obj, entries, default, reader, property,
  is_nullish, is_undefined, Props, end, prop,
}
use ax_ui.Js.Json.{erase, is_json, default-erase}
use ax_ui.Js.Lookup.{open_json, open_json-erase, open_json-undefined, default-erase_obj}
use ax_ui.Js.Part.{Part}

pub record Xhttp : Type 0 where
  pub path : Value
  pub host : Value
  pub mode : Value
  pub no_grpc_header : Value
  pub sc_min_posts_interval_ms : Value
  pub xmux : Value

abbrev pub default_xmux : Value
default_xmux = obj (
    entries (
      ("maxConcurrency", str "16-32")
      ∷ ("maxConnections", nat 0)
      ∷ ("cMaxReuseTimes", nat 0)
      ∷ ("hMaxRequestTimes", str "600-900")
      ∷ ("hMaxReusableSecs", str "1800-3000")
      ∷ ("hKeepAlivePeriod", nat 0)
      ∷ []))

-- The constructor with no argument.
abbrev pub new : Xhttp
new = record {
  path = str "/";
  host = str "";
  mode = str "";
  no_grpc_header = bool false;
  sc_min_posts_interval_ms = str "30";
  xmux = default_xmux;
}

unfoldable pub from_json : Value → Result Xhttp
from_json json = do
  at ← open_json json
  ok (record {
    path = default new.path (at "path");
    host = default new.host (at "host");
    mode = default new.mode (at "mode");
    no_grpc_header = default new.no_grpc_header (at "noGRPCHeader");
    sc_min_posts_interval_ms = default new.sc_min_posts_interval_ms (at "scMinPostsIntervalMs");
    xmux = default new.xmux (at "xmux");
  })

-- The six properties of `xmux` that are written.
abbrev xmux_object : (String → Value) → Value
xmux_object at = obj (
    entries (
      ("maxConcurrency", at "maxConcurrency")
      ∷ ("maxConnections", at "maxConnections")
      ∷ ("cMaxReuseTimes", at "cMaxReuseTimes")
      ∷ ("hMaxRequestTimes", at "hMaxRequestTimes")
      ∷ ("hMaxReusableSecs", at "hMaxReusableSecs")
      ∷ ("hKeepAlivePeriod", at "hKeepAlivePeriod")
      ∷ []))

abbrev object : Xhttp → Value → Value
object s xmux = obj (
    entries (
      ("path", s.path)
      ∷ ("host", s.host)
      ∷ ("mode", s.mode)
      ∷ ("noGRPCHeader", s.no_grpc_header)
      ∷ ("scMinPostsIntervalMs", s.sc_min_posts_interval_ms)
      ∷ ("xmux", xmux)
      ∷ []))

unfoldable pub to_json : Xhttp → Result Value
to_json s = do at ← reader s.xmux; ok (object s (xmux_object at))

-- Every field holds a value that JSON can write, and `xmux` is neither `undefined` nor `null`.
pub record IsJson (s : Xhttp) : Type 0 where
  pub path : is_json s.path ≡ true
  pub host : is_json s.host ≡ true
  pub mode : is_json s.mode ≡ true
  pub no_grpc_header : is_json s.no_grpc_header ≡ true
  pub sc_min_posts_interval_ms : is_json s.sc_min_posts_interval_ms ≡ true
  pub xmux : is_nullish s.xmux ≡ false

-- The properties of `xmux` by their names.
abbrev xmux_names : List String
xmux_names =
    "maxConcurrency" ∷ "maxConnections" ∷ "cMaxReuseTimes" ∷ "hMaxRequestTimes" ∷ "hMaxReusableSecs"
    ∷ "hKeepAlivePeriod" ∷ []

-- The properties of some names, those that are `undefined` left out, each as JSON has it.
abbrev named : List String → (String → Value) → Props
named [] at = end
named (k ∷ ks) at =
    let rest = named ks at in if is_undefined (at k) then rest else prop k (erase (at k)) rest

abbrev field_of : Value → String → Value
field_of (obj ps) k = property k ps
field_of v k = undefined

-- What is kept: the six properties of `xmux`, those that are `undefined` left out.
abbrev pub kept : Xhttp → Xhttp
kept s = record s { xmux = obj (named xmux_names (field_of s.xmux)) }

reader-field_of : (v : Value) → is_nullish v ≡ false → reader v ≡ ok (field_of v)
reader-field_of undefined h = cc
reader-field_of null h = cc
reader-field_of (bool b) h = refl
reader-field_of (num z) h = refl
reader-field_of (str s) h = refl
reader-field_of (arr vs) h = refl
reader-field_of (obj ps) h = refl

-- `fromJson` gives back the XHTTP settings that `toJson` and JSON wrote, with the six properties of
-- `xmux`, if JSON can write each field.
pub from_json-to_json :
    (s : Xhttp) → IsJson s → (v : Value) × (to_json s ≡ ok v) × (from_json (erase v) ≡ ok (kept s))
unfolding from_json to_json erase
from_json-to_json s h = (
  object s (xmux_object (field_of s.xmux)),
  rw (reader-field_of s.xmux h.xmux),
  rw (open_json-erase _ _ refl) (
      simp (
        default-erase_obj, default-erase, h.path, h.host, h.mode, h.no_grpc_header,
        h.sc_min_posts_interval_ms,
      )),
)

-- With no value at all `fromJson` gives the default XHTTP settings.
pub from_json-undefined : from_json undefined ≡ ok new
unfolding from_json
from_json-undefined = rw (open_json-undefined _) refl

abbrev pub part : Part Xhttp
part = record {
  new = new;
  read = from_json;
  write = to_json;
  IsJson = IsJson;
  kept = kept;
  back = from_json-to_json;
  from_undefined = from_json-undefined;
}
