-- ===== src/Stream/Xhttp.antt =====
-- `xHTTPStreamSettings` (web/assets/js/model/inbound.js).
use ax_ui.Common.{◌≡◌, refl, true, false, List, [], ◌∷◌, Result, ok, ◌>>=◌}
use ax_ui.Js.{undefined, Value, bool, nat, str, obj, entries, default}
use ax_ui.Js.Json.{erase, is_json, default-erase}
use ax_ui.Js.Lookup.{open_json, open_json-erase, open_json-undefined}
use ax_ui.Headers.{Header, header, to_headers, to_v2_headers}
use ax_ui.Headers.RoundTrip.{are_plain, to_headers-to_v2_headers}
use ax_ui.Common.{String, ◌++◌, ℕ, erase_idx}

pub record Xhttp : Type 0 where
  pub path : Value
  pub host : Value
  pub headers : List Header
  pub sc_max_buffered_posts : Value
  pub sc_max_each_post_bytes : Value
  pub sc_stream_up_server_secs : Value
  pub no_sse_header : Value
  pub x_padding_bytes : Value
  pub mode : Value
  pub x_padding_obfs_mode : Value
  pub x_padding_key : Value
  pub x_padding_header : Value
  pub x_padding_placement : Value
  pub x_padding_method : Value
  pub uplink_http_method : Value
  pub session_placement : Value
  pub session_key : Value
  pub seq_placement : Value
  pub seq_key : Value
  pub uplink_data_placement : Value
  pub uplink_data_key : Value
  pub uplink_chunk_size : Value

-- The constructor's default values.
abbrev pub new : Xhttp
new = record {
  path = str "/";
  host = str "";
  headers = [];
  sc_max_buffered_posts = nat 30;
  sc_max_each_post_bytes = str "1000000";
  sc_stream_up_server_secs = str "20-80";
  no_sse_header = bool false;
  x_padding_bytes = str "100-1000";
  mode = str "auto";
  x_padding_obfs_mode = bool false;
  x_padding_key = str "";
  x_padding_header = str "";
  x_padding_placement = str "";
  x_padding_method = str "";
  uplink_http_method = str "";
  session_placement = str "";
  session_key = str "";
  seq_placement = str "";
  seq_key = str "";
  uplink_data_placement = str "";
  uplink_data_key = str "";
  uplink_chunk_size = nat 0;
}

-- `addHeader` and `removeHeader`.
unfoldable pub add_header : Xhttp → String → Value → Xhttp
add_header s name value = record s { headers = s.headers ++ header name value ∷ [] }

unfoldable pub remove_header : Xhttp → ℕ → Xhttp
remove_header s i = record s { headers = erase_idx s.headers i }

unfoldable pub from_json : Value → Result Xhttp
from_json json = do
  at ← open_json json
  headers ← to_headers (at "headers")
  ok (record {
    path = default new.path (at "path");
    host = default new.host (at "host");
    headers = headers;
    sc_max_buffered_posts = default new.sc_max_buffered_posts (at "scMaxBufferedPosts");
    sc_max_each_post_bytes = default new.sc_max_each_post_bytes (at "scMaxEachPostBytes");
    sc_stream_up_server_secs = default new.sc_stream_up_server_secs (at "scStreamUpServerSecs");
    no_sse_header = default new.no_sse_header (at "noSSEHeader");
    x_padding_bytes = default new.x_padding_bytes (at "xPaddingBytes");
    mode = default new.mode (at "mode");
    x_padding_obfs_mode = default new.x_padding_obfs_mode (at "xPaddingObfsMode");
    x_padding_key = default new.x_padding_key (at "xPaddingKey");
    x_padding_header = default new.x_padding_header (at "xPaddingHeader");
    x_padding_placement = default new.x_padding_placement (at "xPaddingPlacement");
    x_padding_method = default new.x_padding_method (at "xPaddingMethod");
    uplink_http_method = default new.uplink_http_method (at "uplinkHTTPMethod");
    session_placement = default new.session_placement (at "sessionPlacement");
    session_key = default new.session_key (at "sessionKey");
    seq_placement = default new.seq_placement (at "seqPlacement");
    seq_key = default new.seq_key (at "seqKey");
    uplink_data_placement = default new.uplink_data_placement (at "uplinkDataPlacement");
    uplink_data_key = default new.uplink_data_key (at "uplinkDataKey");
    uplink_chunk_size = default new.uplink_chunk_size (at "uplinkChunkSize");
  })

-- The object that `toJson` gives, with its header object.
abbrev object : Xhttp → Value → Value
object s headers = obj (
    entries (
      ("path", s.path)
      ∷ ("host", s.host)
      ∷ ("headers", headers)
      ∷ ("scMaxBufferedPosts", s.sc_max_buffered_posts)
      ∷ ("scMaxEachPostBytes", s.sc_max_each_post_bytes)
      ∷ ("scStreamUpServerSecs", s.sc_stream_up_server_secs)
      ∷ ("noSSEHeader", s.no_sse_header)
      ∷ ("xPaddingBytes", s.x_padding_bytes)
      ∷ ("mode", s.mode)
      ∷ ("xPaddingObfsMode", s.x_padding_obfs_mode)
      ∷ ("xPaddingKey", s.x_padding_key)
      ∷ ("xPaddingHeader", s.x_padding_header)
      ∷ ("xPaddingPlacement", s.x_padding_placement)
      ∷ ("xPaddingMethod", s.x_padding_method)
      ∷ ("uplinkHTTPMethod", s.uplink_http_method)
      ∷ ("sessionPlacement", s.session_placement)
      ∷ ("sessionKey", s.session_key)
      ∷ ("seqPlacement", s.seq_placement)
      ∷ ("seqKey", s.seq_key)
      ∷ ("uplinkDataPlacement", s.uplink_data_placement)
      ∷ ("uplinkDataKey", s.uplink_data_key)
      ∷ ("uplinkChunkSize", s.uplink_chunk_size)
      ∷ []))

unfoldable pub to_json : Xhttp → Result Value
to_json s = do headers ← to_v2_headers s.headers false; ok (object s headers)

-- Every field holds a value that JSON can write.
pub record IsJson (s : Xhttp) : Type 0 where
  pub path : is_json s.path ≡ true
  pub host : is_json s.host ≡ true
  pub headers : are_plain s.headers ≡ true
  pub sc_max_buffered_posts : is_json s.sc_max_buffered_posts ≡ true
  pub sc_max_each_post_bytes : is_json s.sc_max_each_post_bytes ≡ true
  pub sc_stream_up_server_secs : is_json s.sc_stream_up_server_secs ≡ true
  pub no_sse_header : is_json s.no_sse_header ≡ true
  pub x_padding_bytes : is_json s.x_padding_bytes ≡ true
  pub mode : is_json s.mode ≡ true
  pub x_padding_obfs_mode : is_json s.x_padding_obfs_mode ≡ true
  pub x_padding_key : is_json s.x_padding_key ≡ true
  pub x_padding_header : is_json s.x_padding_header ≡ true
  pub x_padding_placement : is_json s.x_padding_placement ≡ true
  pub x_padding_method : is_json s.x_padding_method ≡ true
  pub uplink_http_method : is_json s.uplink_http_method ≡ true
  pub session_placement : is_json s.session_placement ≡ true
  pub session_key : is_json s.session_key ≡ true
  pub seq_placement : is_json s.seq_placement ≡ true
  pub seq_key : is_json s.seq_key ≡ true
  pub uplink_data_placement : is_json s.uplink_data_placement ≡ true
  pub uplink_data_key : is_json s.uplink_data_key ≡ true
  pub uplink_chunk_size : is_json s.uplink_chunk_size ≡ true

-- `fromJson` gives back the XHTTP settings that `toJson` and JSON wrote, if JSON can write each field and
-- the headers have text values, non-empty and distinct names, none of them inherited.
pub from_json-to_json :
    (s : Xhttp) → IsJson s → (v : Value) × (to_json s ≡ ok v) × (from_json (erase v) ≡ ok s)
unfolding from_json to_json
from_json-to_json s h =
    let (v, e, back) = to_headers-to_v2_headers false s.headers h.headers in
    (
      object s v,
      rw e,
      rw (open_json-erase _ _ refl) (
          rw back (
            simp (
              default-erase, h.path, h.host, h.sc_max_buffered_posts, h.sc_max_each_post_bytes,
              h.sc_stream_up_server_secs, h.no_sse_header, h.x_padding_bytes, h.mode,
              h.x_padding_obfs_mode, h.x_padding_key, h.x_padding_header, h.x_padding_placement,
              h.x_padding_method, h.uplink_http_method, h.session_placement, h.session_key,
              h.seq_placement, h.seq_key, h.uplink_data_placement, h.uplink_data_key,
              h.uplink_chunk_size,
            ))),
    )

-- With no value at all `fromJson` gives the default settings.
pub from_json-undefined : from_json undefined ≡ ok new
unfolding from_json to_headers
from_json-undefined = rw (open_json-undefined _) refl
