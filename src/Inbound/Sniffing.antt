-- ===== src/Inbound/Sniffing.antt =====
-- `Sniffing` (web/assets/js/model/inbound.js).
use Prim.Native.String
use ax_ui.Common.{◌≡◌, refl, true, false, not, ◌&&◌, if◌then◌else◌, [], ◌∷◌, Result, ok, ◌>>=◌}
use ax_ui.Js.{
  is_array, num, nil, null, Value, undefined, bool, str, arr, obj, cons, entries, default, truthy,
  property, strings,
}
use ax_ui.Js.Json.{erase, is_json, default-erase, erase-is_json}
use ax_ui.Js.Text.{not_empty_cons}
use ax_ui.Js.Lookup.{open_json, open_json-erase}
use ax_ui.ObjectUtil.{is_empty, is_arr_empty, clone}

pub record Sniffing : Type 0 where
  pub enabled : Value
  pub dest_override : Value
  pub metadata_only : Value
  pub route_only : Value

abbrev pub default_dest : Value
default_dest = arr (strings ("http" ∷ "tls" ∷ "quic" ∷ "fakedns" ∷ []))

abbrev pub new : Sniffing
new = record {
  enabled = bool false;
  dest_override = default_dest;
  metadata_only = bool false;
  route_only = bool false;
}

-- `destOverride[0]`
abbrev first : Value → Value
first (arr (cons v vs)) = v
first (str (String.◌∷◌ c s)) = str (String.◌∷◌ c "")
first (obj ps) = property "0" ps
first v = undefined

-- A list that begins with an empty value is replaced.
abbrev pub dest_of : Value → Value
dest_of v =
    let d = clone v in
    if (not (is_empty d) && not (is_arr_empty d)) && is_empty (first d) then default_dest else d

unfoldable pub from_json : Value → Result Sniffing
from_json json = do
  at ← open_json json
  ok (record {
    enabled = bool (truthy (at "enabled"));
    dest_override = default default_dest (dest_of (at "destOverride"));
    metadata_only = default (bool false) (at "metadataOnly");
    route_only = default (bool false) (at "routeOnly");
  })

-- `toJson` gives the object itself.
unfoldable pub to_json : Sniffing → Value
to_json s = obj (
    entries (
      ("enabled", s.enabled)
      ∷ ("destOverride", s.dest_override)
      ∷ ("metadataOnly", s.metadata_only)
      ∷ ("routeOnly", s.route_only)
      ∷ []))

-- Every field holds a value that JSON can write; the destinations are a list.
pub record IsJson (s : Sniffing) : Type 0 where
  pub enabled : is_json s.enabled ≡ true
  pub dest_override : is_json s.dest_override ≡ true
  pub dest_array : is_array s.dest_override ≡ true
  pub metadata_only : is_json s.metadata_only ≡ true
  pub route_only : is_json s.route_only ≡ true

-- The default list for one whose first element is `undefined`, `null` or the empty text; any other list, the
-- empty one included, is as it was.
abbrev pub kept_dest : Value → Value
kept_dest (arr (cons undefined vs)) = default_dest
kept_dest (arr (cons null vs)) = default_dest
kept_dest (arr (cons (str String.[]) vs)) = default_dest
kept_dest v = v

-- What is kept: whether it is enabled, and the default list for one that begins with an empty value.
abbrev pub kept : Sniffing → Sniffing
kept s = record s { enabled = bool (truthy s.enabled); dest_override = kept_dest s.dest_override }

dest_back : (v : Value) → is_array v ≡ true → default default_dest (dest_of v) ≡ kept_dest v
unfolding clone
dest_back (arr nil) h = refl
dest_back (arr (cons undefined vs)) h = refl
dest_back (arr (cons null vs)) h = refl
dest_back (arr (cons (bool b) vs)) h = refl
dest_back (arr (cons (num z) vs)) h = refl
dest_back (arr (cons (str String.[]) vs)) h = refl
dest_back (arr (cons (str (String.◌∷◌ c s)) vs)) h = rw (not_empty_cons c s) refl
dest_back (arr (cons (arr ws) vs)) h = refl
dest_back (arr (cons (obj ps) vs)) h = refl
dest_back _ h = cc

-- Sniffing options come back from JSON, with `enabled` a Boolean and with the default list for one that
-- begins with an empty value, if JSON can write each field and the destinations
-- are a list.
pub from_json-to_json : (s : Sniffing) → IsJson s → from_json (erase (to_json s)) ≡ ok (kept s)
unfolding from_json to_json
from_json-to_json s h = rw (open_json-erase _ _ refl) (
    rw (erase-is_json s.enabled h.enabled, erase-is_json s.dest_override h.dest_override)
      (rw (dest_back s.dest_override h.dest_array)
        (simp (default-erase, h.metadata_only, h.route_only))))
