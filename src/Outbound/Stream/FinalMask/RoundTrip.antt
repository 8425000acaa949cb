-- ===== src/Outbound/Stream/FinalMask/RoundTrip.antt =====
-- UDP masks completed twice, and through `toJson`, JSON and `fromJson` (web/assets/js/model/outbound.js).
use ax_ui.Common.{
  ◌≡◌, refl, sym, ap, ◌∙◌, true, List, [], ◌∷◌, map, Result, ok, type_error, ◌>>=◌, traverse, All,
  String, ◌&&◌, if◌then◌else◌, arith,
}
use ax_ui.Js.{
  Values, Value, undefined, str, arr, obj, nil, cons, Props, end, prop, entries, default, or_value,
  truthy, elements, of_list,
}
use ax_ui.Js.Json.{erase, is_json, default-erase, default-is_json, erase_values, erase-is_json}
use ax_ui.Js.Part.{Part}
use ax_ui.Js.Lookup.{erase-undefined, reader-erase, open_json-erase, open_json-undefined}
use ax_ui.Outbound.Stream.FinalMask.{
  UdpMask, Kind, kind, password_settings, domain_settings, settings_for, default_settings, create,
  has_keys, mask_to_json, FinalMask, mask_of, masks_of, new, from_json, to_json, password, domain,
  bare, other,
}

or_value_idem : (a b : Value) → or_value (or_value a b) b ≡ or_value a b
or_value_idem a b = ground arith

-- The two kinds that read properties, whatever the reader is.
password_idem :
    (m : Result (String → Value)) (r : Value)
    → (do at ← m; ok (password_settings at)) ≡ ok r
    → settings_for password (default (obj end) r) ≡ ok r
password_idem type_error r h = cc
password_idem (ok at) r h =
    let e : password_settings at ≡ r = cc in
    rw (← e)
      (ap (λ v. ok (obj (entries (("password", v) ∷ [])))) (or_value_idem (at "password") (str "")))

domain_idem :
    (m : Result (String → Value)) (r : Value)
    → (do at ← m; ok (domain_settings at)) ≡ ok r
    → settings_for domain (default (obj end) r) ≡ ok r
domain_idem type_error r h = cc
domain_idem (ok at) r h =
    let e : domain_settings at ≡ r = cc in
    rw (← e)
      (ap (λ v. ok (obj (entries (("domain", v) ∷ [])))) (or_value_idem (at "domain") (str "")))

settings_for_idem :
    (k : Kind) (v result : Value)
    → settings_for k (default (obj end) v) ≡ ok result
    → settings_for k (default (obj end) result) ≡ ok result
settings_for_idem password v result h = password_idem _ result h
settings_for_idem domain v result h = domain_idem _ result h
settings_for_idem bare v result h = ground arith
settings_for_idem other v result h = ground arith

-- Completing the settings of a mask a second time changes nothing, whatever its type.
pub default_settings_idem_outbound :
    (type settings result : Value)
    → default_settings type settings ≡ ok result
    → default_settings type result ≡ ok result
unfolding default_settings
default_settings_idem_outbound type settings result h =
    settings_for_idem (kind type) settings result h

-- A mask that JSON can write, as the constructor leaves it: its settings are an object and complete.
pub record IsJson (m : UdpMask) : Type 0 where
  pub type : is_json m.type ≡ true
  pub settings : is_json m.settings ≡ true
  pub is_object : (ps : Props) × (m.settings ≡ obj ps)
  pub complete : default_settings m.type m.settings ≡ ok m.settings

-- The settings of a written mask, after JSON and with `{}` for none.
abbrev written : Value → Value
written v = default (obj end) (erase (if truthy v && has_keys v then v else undefined))

written_settings : (ps : Props) → is_json (obj ps) ≡ true → written (obj ps) ≡ obj ps
written_settings end h = rw erase-undefined
written_settings (prop k v ps) h = default-erase _ (obj (prop k v ps)) h

create_complete :
    (m : UdpMask) (v : Value) → IsJson m → default (obj end) v ≡ m.settings → create m.type v ≡ ok m
unfolding create
create_complete m v h e = rw (default-is_json _ m.type h.type, e) (rw h.complete)

mask_of-mask_to_json : (m : UdpMask) → IsJson m → mask_of (erase (mask_to_json m)) ≡ ok m
unfolding mask_of mask_to_json
mask_of-mask_to_json m h =
    let (ps, e) = h.is_object in
    rw (reader-erase _ _ refl) (
      rw (erase-is_json m.type h.type)
        (create_complete m _ h (ap written e ∙ written_settings ps (rw e at h.settings) ∙ sym e)))

erase_values-mask :
    (m : UdpMask) (vs : Values)
    → erase_values (cons (mask_to_json m) vs) ≡ cons (erase (mask_to_json m)) (erase_values vs)
unfolding erase mask_to_json
erase_values-mask m vs = refl

masks_of-written :
    (ms : List UdpMask)
    → All IsJson ms
    → traverse mask_of (elements (erase_values (of_list (map mask_to_json ms)))) ≡ ok ms
unfolding traverse
masks_of-written [] h = unfold erase in refl
masks_of-written (m ∷ ms) h =
    rw (erase_values-mask m (of_list (map mask_to_json ms)))
      (rw (mask_of-mask_to_json m h.0, masks_of-written ms h.1))

udp_of-written :
    (v : Values)
    → masks_of (or_value (erase (arr v)) (arr nil)) ≡ traverse mask_of (elements (erase_values v))
unfolding erase
udp_of-written v = refl

-- `fromJson` gives back the masks that `toJson` and JSON wrote, if JSON can write them and each is
-- complete, as the constructor leaves it.
pub from_json-to_json : (s : FinalMask) → All IsJson s.udp → from_json (erase (to_json s)) ≡ ok s
unfolding from_json to_json
from_json-to_json s h =
    rw (open_json-erase _ _ refl)
      (rw (udp_of-written (of_list (map mask_to_json s.udp)), masks_of-written s.udp h))

pub from_json-undefined : from_json undefined ≡ ok new
unfolding from_json traverse
from_json-undefined = rw (open_json-undefined _) refl

abbrev pub part : Part FinalMask
part = record {
  new = new;
  read = from_json;
  write = λ s. ok (to_json s);
  IsJson = λ s. All IsJson s.udp;
  kept = λ s. s;
  back = λ s h. (to_json s, refl, from_json-to_json s h);
  from_undefined = from_json-undefined;
}
