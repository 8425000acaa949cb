-- ===== src/Outbound/ParamLink/Transport.antt =====
-- The transport in a link with parameters, written and read (web/assets/js/model/inbound.js and outbound.js).
use ax_ui.Common.{
  ◌≡◌, refl, Bool, true, false, ◌&&◌, [], ◌∷◌, ◌++◌, String, Option, none, some, ok, if◌then◌else◌,
}
use ax_ui.Js.{Value, undefined, str, arr, equals_text, is_array, to_text, join_text, truthy}
use ax_ui.Js.Operators.{join_commas}
use ax_ui.Js.Part.{when}
use ax_ui.Inbound.Model.{Inbound}
use ax_ui.Inbound.VmessLink.{Fields, Network, tcp, kcp, ws, grpc, httpupgrade, xhttp, other}
use ax_ui.Inbound.VlessLink.{transport_params, find_host, found, is_found}
use ax_ui.Outbound.Stream.Settings as Stream
use ax_ui.Outbound.VmessLink.Carried.{joined}
use ax_ui.Outbound.ParamLink.{read_transport, or_undefined, text_or, is_text}
use ax_ui.Outbound.ParamLink.Carried.{carried_part, text_found, text_at}
use ax_ui.Outbound.ParamLink.Lookup.{none_named, security_names}

-- The path of HTTP, written under its condition and read.
path_back :
    (b : Bool) (v : Value)
    → (b ≡ true → is_array v ≡ true)
    → (w : Value) × (when b (join_commas v) ≡ ok w)
      × (or_undefined (if b then some (to_text w) else none) ≡ (if b then joined v else undefined))
unfolding to_text
path_back false v h = (undefined, refl, refl)
path_back true (arr vs) h = (str (join_text "," vs), refl, refl)
path_back true _ h = absurd (cc (h refl))

host_back :
    (b : Bool) (v : Option Value)
    → or_undefined (if b && is_found v then some (to_text (found v)) else none)
      ≡ (if b then text_found v else undefined)
host_back true none = refl
host_back true (some v) = refl
host_back false v = refl

type_back :
    (b : Bool)
    → str (text_or "none" (if b then some (to_text (str "http")) else none))
      ≡ (if b then str "http" else str "none")
unfolding to_text
type_back true = refl
type_back false = refl

multi_back : (b : Bool) → is_text "multi" (if b then some (to_text (str "multi")) else none) ≡ b
unfolding to_text
multi_back true = refl
multi_back false = refl

-- The same texts are found under the names that a transport has.
pub record Finds (get : String → Option String) (fs : Fields) : Type 0 where
  pub header_type : get "headerType" ≡ text_at "headerType" fs
  pub host : get "host" ≡ text_at "host" fs
  pub path : get "path" ≡ text_at "path" fs
  pub service_name : get "serviceName" ≡ text_at "serviceName" fs
  pub authority : get "authority" ≡ text_at "authority" fs
  pub mode : get "mode" ≡ text_at "mode" fs

-- What each network needs: its parameters are written, none has a name of the security's, and they are read.
pub record Carries (lower : String → String) (i : Inbound) (n : Network) : Type 0 where
  pub fields : Fields
  pub written : transport_params lower i.stream n ≡ ok fields
  pub clear : none_named security_names fields ≡ true
  pub read :
      (rest : Fields) (get : String → Option String) (s : Stream.StreamSettings)
      → Finds get (fields ++ rest)
      → read_transport get s n ≡ carried_part lower i.stream s n

pub carries :
    (lower : String → String) (i : Inbound) (n : Network)
    → (equals_text i.stream.tcp.type "http" ≡ true → is_array i.stream.tcp.request.path ≡ true)
    → Carries lower i n
carries lower i kcp h = record {
  fields = [];
  written = refl;
  clear = refl;
  read = λ rest get s e. refl;
}
carries lower i ws h = record {
  fields = _;
  written = refl;
  clear = refl;
  read = λ rest get s e. rw (e.path, e.host) refl;
}
carries lower i grpc h = record {
  fields = _;
  written = refl;
  clear = refl;
  read = λ rest get s e.
      rw (e.service_name, e.authority, e.mode)
        (rw (multi_back (truthy i.stream.grpc.multi_mode)) refl);
}
carries lower i httpupgrade h = record {
  fields = _;
  written = refl;
  clear = refl;
  read = λ rest get s e. rw (e.path, e.host) refl;
}
carries lower i xhttp h = record {
  fields = _;
  written = refl;
  clear = refl;
  read = λ rest get s e. rw (e.path, e.host, e.mode) refl;
}
carries lower i other h = record {
  fields = [];
  written = refl;
  clear = refl;
  read = λ rest get s e. refl;
}
carries lower i tcp h =
    let http = equals_text i.stream.tcp.type "http" in
    let host = find_host lower i.stream.tcp.request.headers in
    let (path, w, r) = path_back http i.stream.tcp.request.path h in
    record {
      fields =
          (http, "path", path)
          ∷ (http && is_found host, "host", found host)
          ∷ (http, "headerType", str "http")
          ∷ [];
      written = rw w refl;
      clear = refl;
      read = λ rest get s e.
          rw (e.header_type, e.host, e.path) (rw (type_back http, host_back http host, r) refl);
    }
