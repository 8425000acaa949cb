-- ===== src/Stream/FinalMask/RoundTrip.antt =====
-- UDP masks through `toJson`, JSON and `fromJson` (web/assets/js/model/inbound.js).
use ax_ui.Common.{
  ◌≡◌, refl, sym, ap, ◌∙◌, true, List, [], ◌∷◌, map, ok, traverse, All, ◌&&◌, if◌then◌else◌,
}
use ax_ui.Js.{
  Values, Value, undefined, arr, obj, nil, cons, Props, end, prop, default, or_value, truthy,
  elements, of_list,
}
use ax_ui.Js.Json.{erase, is_json, default-erase, default-is_json, erase_values, erase-is_json}
use ax_ui.Js.Lookup.{erase-undefined, reader-erase, open_json-erase, open_json-undefined}
use ax_ui.Stream.FinalMask.{
  UdpMask, default_settings, create, has_keys, mask_to_json, FinalMask, mask_of, masks_of, new,
  from_json, to_json,
}

-- A mask that JSON can write, as the constructor leaves it: its settings are an object and complete.
pub record IsJson (m : UdpMask) : Type 0 where
  pub type : is_json m.type ≡ true
  pub settings : is_json m.settings ≡ true
  pub is_object : (ps : Props) × (m.settings ≡ obj ps)
  pub complete : default_settings m.type m.settings ≡ ok m.settings

-- The settings of a written mask, after JSON and with `{}` for none.
abbrev written : Value → Value
written v = default (obj end) (erase (if truthy v && has_keys v then v else undefined))

written_settings : (ps : Props) → is_json (obj ps) ≡ true → written (obj ps) ≡ obj ps
written_settings end h = rw erase-undefined
written_settings (prop k v ps) h = default-erase _ (obj (prop k v ps)) h

create_complete :
    (m : UdpMask) (v : Value) → IsJson m → default (obj end) v ≡ m.settings → create m.type v ≡ ok m
unfolding create
create_complete m v h e = rw (default-is_json _ m.type h.type, e) (rw h.complete)

mask_of-mask_to_json : (m : UdpMask) → IsJson m → mask_of (erase (mask_to_json m)) ≡ ok m
unfolding mask_of mask_to_json
mask_of-mask_to_json m h =
    let (ps, e) = h.is_object in
    rw (reader-erase _ _ refl) (
      rw (erase-is_json m.type h.type)
        (create_complete m _ h (ap written e ∙ written_settings ps (rw e at h.settings) ∙ sym e)))

erase_values-mask :
    (m : UdpMask) (vs : Values)
    → erase_values (cons (mask_to_json m) vs) ≡ cons (erase (mask_to_json m)) (erase_values vs)
unfolding erase mask_to_json
erase_values-mask m vs = refl

masks_of-written :
    (ms : List UdpMask)
    → All IsJson ms
    → traverse mask_of (elements (erase_values (of_list (map mask_to_json ms)))) ≡ ok ms
unfolding traverse
masks_of-written [] h = unfold erase in refl
masks_of-written (m ∷ ms) h =
    rw (erase_values-mask m (of_list (map mask_to_json ms)))
      (rw (mask_of-mask_to_json m h.0, masks_of-written ms h.1))

udp_of-written :
    (v : Values)
    → masks_of (or_value (erase (arr v)) (arr nil)) ≡ traverse mask_of (elements (erase_values v))
unfolding erase
udp_of-written v = refl

-- `fromJson` gives back the masks that `toJson` and JSON wrote, if JSON can write them and each is
-- complete, as the constructor leaves it.
pub from_json-to_json : (s : FinalMask) → All IsJson s.udp → from_json (erase (to_json s)) ≡ ok s
unfolding from_json to_json
from_json-to_json s h =
    rw (open_json-erase _ _ refl)
      (rw (udp_of-written (of_list (map mask_to_json s.udp)), masks_of-written s.udp h))

pub from_json-undefined : from_json undefined ≡ ok new
unfolding from_json traverse
from_json-undefined = rw (open_json-undefined _) refl
