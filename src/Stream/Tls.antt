-- ===== src/Stream/Tls.antt =====
-- `TlsStreamSettings` (web/assets/js/model/inbound.js).
pub mod Cert
pub mod Settings
use ax_ui.Common.{
  ◌≡◌, refl, ap, ◌∙◌, true, false, List, [], ◌∷◌, map, Result, ok, type_error, ◌>>=◌, traverse, All,
  ℕ, ◌++◌, erase_idx, String, if◌then◌else◌, Bool, ◌&&◌, not, ◌||◌, Bool-cases, inl, inr, arith,
}
use ax_ui.Js.{
  Value, undefined, null, bool, num, nat, str, arr, obj, nil, cons, Values, Props, end, prop,
  entries, default, reader, elements, of_list, strings, is_undefined, truthy, is_string, join_text,
  is_array,
}
use ax_ui.Js.Json.{erase, erase_values, is_json, default-erase}
use ax_ui.Js.Lookup.{open_json, open_json-erase, open_json-undefined}
use ax_ui.Js.Arrays.{ReadsBack, traverse-ReadsBack, erase-arr}
use ax_ui.ObjectUtil.{is_empty}

pub record Tls : Type 0 where
  pub sni : Value
  pub min_version : Value
  pub max_version : Value
  pub cipher_suites : Value
  pub reject_unknown_sni : Value
  pub disable_system_root : Value
  pub enable_session_resumption : Value
  pub certs : List Cert.Cert
  pub alpn : Value
  pub ech_server_keys : Value
  pub ech_force_query : Value
  pub settings : Settings.Settings

-- The constructor's default values.
abbrev pub new : Tls
new = record {
  sni = str "";
  min_version = str "1.2";
  max_version = str "1.3";
  cipher_suites = str "";
  reject_unknown_sni = bool false;
  disable_system_root = bool false;
  enable_session_resumption = bool false;
  certs = Cert.new ∷ [];
  alpn = arr (cons (str "h2") (cons (str "http/1.1") nil));
  ech_server_keys = str "";
  ech_force_query = str "none";
  settings = Settings.new;
}

-- `addCert` and `removeCert`.
unfoldable pub add_cert : Tls → Tls
add_cert s = record s { certs = s.certs ++ Cert.new ∷ [] }

unfoldable pub remove_cert : Tls → ℕ → Tls
remove_cert s i = record s { certs = erase_idx s.certs i }

-- `json.certificates.map(…)`, or the default where there is none; only an array has `map`.
unfoldable pub certificates : Value → Result (List Cert.Cert)
certificates (arr vs) = traverse Cert.from_json (elements vs)
certificates v = if is_empty v then ok new.certs else type_error

unfoldable pub settings_of : Value → Result Settings.Settings
settings_of v = if is_empty v then ok Settings.new else (do at ← reader v; ok (Settings.of_json at))

unfoldable pub from_json : Value → Result Tls
from_json json = do
  at ← open_json json
  certs ← certificates (at "certificates")
  settings ← settings_of (at "settings")
  ok (record {
    sni = default new.sni (at "serverName");
    min_version = default new.min_version (at "minVersion");
    max_version = default new.max_version (at "maxVersion");
    cipher_suites = default new.cipher_suites (at "cipherSuites");
    reject_unknown_sni = default new.reject_unknown_sni (at "rejectUnknownSni");
    disable_system_root = default new.disable_system_root (at "disableSystemRoot");
    enable_session_resumption =
        default new.enable_session_resumption (at "enableSessionResumption");
    certs = certs;
    alpn = default new.alpn (at "alpn");
    ech_server_keys = default new.ech_server_keys (at "echServerKeys");
    ech_force_query = default new.ech_force_query (at "echForceQuery");
    settings = settings;
  })

abbrev object : Tls → List Value → Value
object s certs = obj (
    entries (
      ("serverName", s.sni)
      ∷ ("minVersion", s.min_version)
      ∷ ("maxVersion", s.max_version)
      ∷ ("cipherSuites", s.cipher_suites)
      ∷ ("rejectUnknownSni", s.reject_unknown_sni)
      ∷ ("disableSystemRoot", s.disable_system_root)
      ∷ ("enableSessionResumption", s.enable_session_resumption)
      ∷ ("certificates", arr (of_list certs))
      ∷ ("alpn", s.alpn)
      ∷ ("echServerKeys", s.ech_server_keys)
      ∷ ("echForceQuery", s.ech_force_query)
      ∷ ("settings", Settings.to_json s.settings)
      ∷ []))

unfoldable pub to_json : Tls → Result Value
to_json s = do certs ← traverse Cert.to_json s.certs; ok (object s certs)

-- Every field holds a value that JSON can write.
pub record IsJson (s : Tls) : Type 0 where
  pub sni : is_json s.sni ≡ true
  pub min_version : is_json s.min_version ≡ true
  pub max_version : is_json s.max_version ≡ true
  pub cipher_suites : is_json s.cipher_suites ≡ true
  pub reject_unknown_sni : is_json s.reject_unknown_sni ≡ true
  pub disable_system_root : is_json s.disable_system_root ≡ true
  pub enable_session_resumption : is_json s.enable_session_resumption ≡ true
  pub certs : All Cert.IsJson s.certs
  pub alpn : is_json s.alpn ≡ true
  pub ech_server_keys : is_json s.ech_server_keys ≡ true
  pub ech_force_query : is_json s.ech_force_query ≡ true
  pub settings : Settings.IsJson s.settings

-- What is kept of the settings: each certificate with the half that it uses.
abbrev pub kept : Tls → Tls
kept s = record s { certs = map Cert.kept s.certs }

certificates-erase :
    (cs : List Cert.Cert)
    → All Cert.IsJson cs
    → (vs : List Value) × (traverse Cert.to_json cs ≡ ok vs)
      × (certificates (erase (arr (of_list vs))) ≡ ok (map Cert.kept cs))
unfolding certificates
certificates-erase cs h =
    let (vs, w, r) = traverse-ReadsBack Cert.to_json Cert.from_json Cert.kept cs (read_back cs h) in
    (vs, w, rw (erase-arr (of_list vs)) r)
  where
    read_back :
        (cs : List Cert.Cert)
        → All Cert.IsJson cs
        → All (ReadsBack Cert.to_json Cert.from_json Cert.kept) cs
    read_back [] h = tt
    read_back (c ∷ cs) h = (Cert.from_json-to_json c h.0, read_back cs h.1)

settings_of-erase :
    (s : Settings.Settings) → Settings.IsJson s → settings_of (erase (Settings.to_json s)) ≡ ok s
unfolding settings_of
settings_of-erase s h = rw (Settings.is_empty-to_json s) (Settings.reader-to_json s h)

-- `fromJson` gives back the TLS settings that `toJson` and JSON wrote, each certificate with the half
-- (files or texts) that it uses, if JSON can write each field and the certificate texts are texts.
pub from_json-to_json :
    (s : Tls) → IsJson s → (v : Value) × (to_json s ≡ ok v) × (from_json (erase v) ≡ ok (kept s))
unfolding from_json to_json
from_json-to_json s h =
    let (vs, w, r) = certificates-erase s.certs h.certs in
    (
      object s vs,
      rw w,
      rw (open_json-erase _ _ refl) (
          rw (r, settings_of-erase s.settings h.settings)
            (simp (
              default-erase, h.sni, h.min_version, h.max_version, h.cipher_suites,
              h.reject_unknown_sni, h.disable_system_root, h.enable_session_resumption, h.alpn,
              h.ech_server_keys, h.ech_force_query,
            ))),
    )

-- With no value at all `fromJson` gives the default settings.
pub from_json-undefined : from_json undefined ≡ ok new
unfolding from_json certificates settings_of
from_json-undefined = rw (open_json-undefined _) refl
