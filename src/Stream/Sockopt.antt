-- ===== src/Stream/Sockopt.antt =====
-- `SockoptStreamSettings` (web/assets/js/model/inbound.js).
use ax_ui.Common.{
  ◌≡◌, ap, ◌∙◌, refl, true, false, Result, ok, type_error, ◌>>=◌, Option, none, some, String, Bool,
  ◌&&◌, if◌then◌else◌, Bool-cases, inl, inr,
}
use ax_ui.Js.{
  property, distinct_keys, cons, Value, undefined, null, bool, nat, str, arr, obj, nil, Props, end,
  prop, default, reader, or_value, truthy, is_array,
}
use ax_ui.Js.Json.{erase, is_json, is_json-defined, default-erase, erase-is_json}
use ax_ui.Js.Lookup.{erase-undefined, default-erase_obj, reader-erase}
use ax_ui.ObjectUtil.{own_props, has_elements}

pub record Sockopt : Type 0 where
  pub accept_proxy_protocol : Value
  pub tcp_fast_open : Value
  pub mark : Value
  pub tproxy : Value
  pub tcp_mptcp : Value
  pub penetrate : Value
  pub domain_strategy : Value
  pub tcp_max_seg : Value
  pub dialer_proxy : Value
  pub tcp_keep_alive_interval : Value
  pub tcp_keep_alive_idle : Value
  pub tcp_user_timeout : Value
  pub tcpcongestion : Value
  pub v6_only : Value
  pub tcp_window_clamp : Value
  pub interface_name : Value
  pub trusted_x_forwarded_for : Value

-- The constructor's default values.
abbrev pub new : Sockopt
new = record {
  accept_proxy_protocol = bool false;
  tcp_fast_open = bool false;
  mark = nat 0;
  tproxy = str "off";
  tcp_mptcp = bool false;
  penetrate = bool false;
  domain_strategy = str "UseIP";
  tcp_max_seg = nat 1440;
  dialer_proxy = str "";
  tcp_keep_alive_interval = nat 0;
  tcp_keep_alive_idle = nat 300;
  tcp_user_timeout = nat 10000;
  tcpcongestion = str "bbr";
  v6_only = bool false;
  tcp_window_clamp = nat 600;
  interface_name = str "";
  trusted_x_forwarded_for = arr nil;
}

abbrev is_end : Props → Bool
is_end end = true
is_end _ = false

-- `Object.keys(json).length === 0`; `null` throws.
abbrev pub has_no_keys : Value → Result Bool
has_no_keys undefined = type_error
has_no_keys null = type_error
has_no_keys v = ok (is_end (own_props v))

abbrev filled : (String → Value) → Sockopt
filled at = record {
  accept_proxy_protocol = default new.accept_proxy_protocol (at "acceptProxyProtocol");
  tcp_fast_open = default new.tcp_fast_open (at "tcpFastOpen");
  mark = default new.mark (at "mark");
  tproxy = default new.tproxy (at "tproxy");
  tcp_mptcp = default new.tcp_mptcp (at "tcpMptcp");
  penetrate = default new.penetrate (at "penetrate");
  domain_strategy = default new.domain_strategy (at "domainStrategy");
  tcp_max_seg = default new.tcp_max_seg (at "tcpMaxSeg");
  dialer_proxy = default new.dialer_proxy (at "dialerProxy");
  tcp_keep_alive_interval = default new.tcp_keep_alive_interval (at "tcpKeepAliveInterval");
  tcp_keep_alive_idle = default new.tcp_keep_alive_idle (at "tcpKeepAliveIdle");
  tcp_user_timeout = default new.tcp_user_timeout (at "tcpUserTimeout");
  tcpcongestion = default new.tcpcongestion (at "tcpcongestion");
  v6_only = default new.v6_only (at "V6Only");
  tcp_window_clamp = default new.tcp_window_clamp (at "tcpWindowClamp");
  interface_name = default new.interface_name (at "interface");
  trusted_x_forwarded_for =
      default new.trusted_x_forwarded_for (or_value (at "trustedXForwardedFor") (arr nil));
}

-- `none` stands for `undefined`, the result for an object with no property.
unfoldable pub from_json : Value → Result (Option Sockopt)
from_json json = do
  empty ← has_no_keys (default (obj end) json)
  at ← reader (default (obj end) json)
  ok (if empty then none else some (filled at))

abbrev fixed : Sockopt → Props → Props
fixed s rest = prop "acceptProxyProtocol" s.accept_proxy_protocol (
    prop "tcpFastOpen" s.tcp_fast_open (
      prop "mark" s.mark (
        prop "tproxy" s.tproxy (
          prop "tcpMptcp" s.tcp_mptcp (
            prop "penetrate" s.penetrate (
              prop "domainStrategy" s.domain_strategy (
                prop "tcpMaxSeg" s.tcp_max_seg (
                  prop "dialerProxy" s.dialer_proxy (
                    prop "tcpKeepAliveInterval" s.tcp_keep_alive_interval (
                      prop "tcpKeepAliveIdle" s.tcp_keep_alive_idle (
                        prop "tcpUserTimeout" s.tcp_user_timeout (
                          prop "tcpcongestion" s.tcpcongestion (
                            prop "V6Only" s.v6_only (
                              prop "tcpWindowClamp" s.tcp_window_clamp
                                (prop "interface" s.interface_name (rest))))))))))))))))

-- The forwarding list is written only where it has elements.
unfoldable pub to_json : Sockopt → Value
to_json s = obj (
    fixed s (
      if truthy s.trusted_x_forwarded_for && has_elements s.trusted_x_forwarded_for
      then prop "trustedXForwardedFor" s.trusted_x_forwarded_for end
      else end))

-- Every field holds a value that JSON can write, and the forwarding list is an array.
pub record IsJson (s : Sockopt) : Type 0 where
  pub accept_proxy_protocol : is_json s.accept_proxy_protocol ≡ true
  pub tcp_fast_open : is_json s.tcp_fast_open ≡ true
  pub mark : is_json s.mark ≡ true
  pub tproxy : is_json s.tproxy ≡ true
  pub tcp_mptcp : is_json s.tcp_mptcp ≡ true
  pub penetrate : is_json s.penetrate ≡ true
  pub domain_strategy : is_json s.domain_strategy ≡ true
  pub tcp_max_seg : is_json s.tcp_max_seg ≡ true
  pub dialer_proxy : is_json s.dialer_proxy ≡ true
  pub tcp_keep_alive_interval : is_json s.tcp_keep_alive_interval ≡ true
  pub tcp_keep_alive_idle : is_json s.tcp_keep_alive_idle ≡ true
  pub tcp_user_timeout : is_json s.tcp_user_timeout ≡ true
  pub tcpcongestion : is_json s.tcpcongestion ≡ true
  pub v6_only : is_json s.v6_only ≡ true
  pub tcp_window_clamp : is_json s.tcp_window_clamp ≡ true
  pub interface_name : is_json s.interface_name ≡ true
  pub trusted_x_forwarded_for : is_json s.trusted_x_forwarded_for ≡ true
  pub trusted_x_forwarded_for_array : is_array s.trusted_x_forwarded_for ≡ true

pub has_no_keys-erase :
    (k : String) (v : Value) (ps : Props)
    → is_json v ≡ true
    → has_no_keys (erase (obj (prop k v ps))) ≡ ok false
unfolding erase
has_no_keys-erase k v ps h = rw (is_json-defined v h)

-- Reading the list back, where it was written and where it was left out.
abbrev pub list_of : Value → Value
list_of v = default new.trusted_x_forwarded_for (or_value (erase v) (arr nil))

pub list_of-array : (v : Value) → is_json v ≡ true → is_array v ≡ true → list_of v ≡ v
list_of-array (arr vs) j a = rw (erase-is_json (arr vs) j)
list_of-array _ j a = cc

pub list_of-empty :
    (v : Value) → is_array v ≡ true → (truthy v && has_elements v) ≡ false → list_of undefined ≡ v
list_of-empty (arr nil) a e = rw erase-undefined
list_of-empty (arr (cons v vs)) a e = cc
list_of-empty _ a e = cc

read_back :
    (s : Sockopt) (rest : Props)
    → IsJson s
    → distinct_keys (fixed s rest) ≡ true
    → from_json (erase (obj (fixed s rest)))
      ≡ ok (
          some
            (record s { trusted_x_forwarded_for = list_of (property "trustedXForwardedFor" rest) }))
unfolding from_json
read_back s rest h d = rw (default-erase_obj _ _) (
    rw (has_no_keys-erase _ _ _ h.accept_proxy_protocol) (
      rw (reader-erase _ _ d) (
        simp (
          default-erase, h.accept_proxy_protocol, h.tcp_fast_open, h.mark, h.tproxy, h.tcp_mptcp,
          h.penetrate, h.domain_strategy, h.tcp_max_seg, h.dialer_proxy, h.tcp_keep_alive_interval,
          h.tcp_keep_alive_idle, h.tcp_user_timeout, h.tcpcongestion, h.v6_only, h.tcp_window_clamp,
          h.interface_name,
        ))))

-- `fromJson` gives back the socket options that `toJson` and JSON wrote, with or without a forwarding
-- list, if JSON can write each field and the list is an array.
pub from_json-to_json : (s : Sockopt) → IsJson s → from_json (erase (to_json s)) ≡ ok (some s)
unfolding to_json
from_json-to_json s h =
    elim (Bool-cases (truthy s.trusted_x_forwarded_for && has_elements s.trusted_x_forwarded_for)) [
      | inl y ↦ rw y (
          read_back s _ h refl
          ∙ ap (with_list s)
              (list_of-array _ h.trusted_x_forwarded_for h.trusted_x_forwarded_for_array))
      | inr n ↦ rw n (
          read_back s end h refl
          ∙ ap (with_list s) (list_of-empty _ h.trusted_x_forwarded_for_array n))
    ]
  where
    with_list : Sockopt → Value → Result (Option Sockopt)
    with_list s v = ok (some (record s { trusted_x_forwarded_for = v }))

-- An object with no property, or no value at all, gives no socket options.
pub from_json-undefined : from_json undefined ≡ ok none
unfolding from_json
from_json-undefined = refl
