-- ===== src/Outbound/Stream/Sockopt.antt =====
-- `SockoptStreamSettings` (web/assets/js/model/outbound.js).
use ax_ui.Common.{
  ◌≡◌, refl, true, false, List, [], ◌∷◌, Bool, String, Result, ok, ◌>>=◌, Option, none, some, ◌&&◌,
  if◌then◌else◌, Bool-cases, inl, inr, ap,
}
use ax_ui.Js.{
  property, undefined, Value, bool, nat, str, arr, nil, obj, end, default, reader, truthy, or_value,
  is_array,
}
use ax_ui.Js.Json.{erase, is_json, default-erase}
use ax_ui.Js.Lookup.{erase-undefined, default-erase_obj, reader-erase}
use ax_ui.Js.Given.{given, distinct_keys-given, property-given}
use ax_ui.Stream.Sockopt.{has_no_keys, has_no_keys-erase, list_of, list_of-array, list_of-empty}
use ax_ui.ObjectUtil.{has_elements}

pub record Sockopt : Type 0 where
  pub dialer_proxy : Value
  pub tcp_fast_open : Value
  pub tcp_keep_alive_interval : Value
  pub tcp_mptcp : Value
  pub penetrate : Value
  pub address_port_strategy : Value
  pub trusted_x_forwarded_for : Value

-- The constructor with no argument.
abbrev pub new : Sockopt
new = record {
  dialer_proxy = str "";
  tcp_fast_open = bool false;
  tcp_keep_alive_interval = nat 0;
  tcp_mptcp = bool false;
  penetrate = bool false;
  address_port_strategy = str "none";
  trusted_x_forwarded_for = arr nil;
}

abbrev filled : (String → Value) → Sockopt
filled at = record {
  dialer_proxy = default new.dialer_proxy (at "dialerProxy");
  tcp_fast_open = default new.tcp_fast_open (at "tcpFastOpen");
  tcp_keep_alive_interval = default new.tcp_keep_alive_interval (at "tcpKeepAliveInterval");
  tcp_mptcp = default new.tcp_mptcp (at "tcpMptcp");
  penetrate = default new.penetrate (at "penetrate");
  address_port_strategy = default new.address_port_strategy (at "addressPortStrategy");
  trusted_x_forwarded_for =
      default new.trusted_x_forwarded_for (or_value (at "trustedXForwardedFor") (arr nil));
}

-- `none` stands for `undefined`, the result for an object with no property.
unfoldable pub from_json : Value → Result (Option Sockopt)
from_json json = do
  empty ← has_no_keys (default (obj end) json)
  at ← reader (default (obj end) json)
  ok (if empty then none else some (filled at))

-- The properties, with the condition of the one that is not always set.
abbrev fields : Sockopt → List (Bool × String × Value)
fields s =
    (true, "dialerProxy", s.dialer_proxy)
    ∷ (true, "tcpFastOpen", s.tcp_fast_open)
    ∷ (true, "tcpKeepAliveInterval", s.tcp_keep_alive_interval)
    ∷ (true, "tcpMptcp", s.tcp_mptcp)
    ∷ (true, "penetrate", s.penetrate)
    ∷ (true, "addressPortStrategy", s.address_port_strategy)
    ∷ (
      truthy s.trusted_x_forwarded_for && has_elements s.trusted_x_forwarded_for,
      "trustedXForwardedFor",
      s.trusted_x_forwarded_for,
    )
    ∷ []

unfoldable pub to_json : Sockopt → Value
to_json s = obj (given (fields s))

-- Every field holds a value that JSON can write, and the forwarding list is an array.
pub record IsJson (s : Sockopt) : Type 0 where
  pub dialer_proxy : is_json s.dialer_proxy ≡ true
  pub tcp_fast_open : is_json s.tcp_fast_open ≡ true
  pub tcp_keep_alive_interval : is_json s.tcp_keep_alive_interval ≡ true
  pub tcp_mptcp : is_json s.tcp_mptcp ≡ true
  pub penetrate : is_json s.penetrate ≡ true
  pub address_port_strategy : is_json s.address_port_strategy ≡ true
  pub trusted_x_forwarded_for : is_json s.trusted_x_forwarded_for ≡ true
  pub trusted_x_forwarded_for_array : is_array s.trusted_x_forwarded_for ≡ true

list_back :
    (v : Value)
    → is_json v ≡ true
    → is_array v ≡ true
    → list_of (if truthy v && has_elements v then v else undefined) ≡ v
list_back v j a = elim (Bool-cases (truthy v && has_elements v)) [
  | inl y ↦ rw y (list_of-array v j a)
  | inr n ↦ rw n (rw erase-undefined (rw erase-undefined at list_of-empty v a n))
]

filled_back : (s : Sockopt) → IsJson s → filled (λ k. erase (property k (given (fields s)))) ≡ s
filled_back s h =
    let at = λ (k : String). property-given k (fields s) refl in
    rw
      (
        at "dialerProxy",
        at "tcpFastOpen",
        at "tcpKeepAliveInterval",
        at "tcpMptcp",
        at "penetrate",
        at "addressPortStrategy",
        at "trustedXForwardedFor",
      )
      (rw
        (list_back s.trusted_x_forwarded_for h.trusted_x_forwarded_for
          h.trusted_x_forwarded_for_array)
        (simp (
          default-erase, h.dialer_proxy, h.tcp_fast_open, h.tcp_keep_alive_interval, h.tcp_mptcp,
          h.penetrate, h.address_port_strategy,
        )))

-- `fromJson` gives back the socket options that `toJson` and JSON wrote, with or without a forwarding
-- list, if JSON can write each field and the list is an array.
pub from_json-to_json : (s : Sockopt) → IsJson s → from_json (erase (to_json s)) ≡ ok (some s)
unfolding from_json to_json given
from_json-to_json s h = rw (default-erase_obj _ _) (
    rw (has_no_keys-erase _ _ _ h.dialer_proxy) (
      rw (reader-erase _ _ (distinct_keys-given (fields s) refl))
        (ap (λ o. ok (some o)) (filled_back s h))))

-- An object with no property, or no value at all, gives no socket options.
pub from_json-undefined : from_json undefined ≡ ok none
unfolding from_json
from_json-undefined = refl
