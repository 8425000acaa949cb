-- ===== src/Inbound/TrojanLink.antt =====
-- `genTrojanLink` of `Inbound` (web/assets/js/model/inbound.js): the parts of the link and its parameters.
use ax_ui.Common.{String, Bool, true, not, ◌&&◌, [], ◌∷◌, ◌++◌, Result, ok, ◌>>=◌}
use ax_ui.Js.{Value, str, default, equals_text}
use ax_ui.Js.Operators.{has_length}
use ax_ui.Js.Part.{when}
use ax_ui.ObjectUtil.{is_empty, is_arr_empty}
use ax_ui.Inbound.Model.{Inbound}
use ax_ui.Inbound.VmessLink.{Fields, network_of}
use ax_ui.Inbound.VlessLink.{
  Security, tls, reality, neither, chosen, security_of, first_part, first_id, transport_params,
  Link, checked,
}

-- The arguments of the link.
pub record Share : Type 0 where
  pub address : Value
  pub port : Value
  pub force_tls : Value
  pub remark : Value
  pub client_password : Value

-- The parameters of TLS: but for the first only where the inbound itself has TLS.
abbrev pub tls_params : Inbound → Bool → Fields
tls_params i on =
    (true, "security", str "tls")
    ∷ (on, "fp", i.stream.tls.settings.fingerprint)
    ∷ (on, "alpn", i.stream.tls.alpn)
    ∷ (
      on && has_length i.stream.tls.settings.ech_config_list,
      "ech",
      i.stream.tls.settings.ech_config_list,
    )
    ∷ (on && not (is_empty i.stream.tls.sni), "sni", i.stream.tls.sni)
    ∷ []

-- The parameters of Reality, given the first name and the first id.
abbrev pub reality_params : Inbound → (name id : Value) → Fields
reality_params i name id =
    (true, "security", str "reality")
    ∷ (true, "pbk", i.stream.reality.settings.public_key)
    ∷ (true, "fp", i.stream.reality.settings.fingerprint)
    ∷ (not (is_arr_empty i.stream.reality.server_names), "sni", name)
    ∷ (has_length i.stream.reality.short_ids, "sid", id)
    ∷ (not (is_empty i.stream.reality.settings.spider_x), "spx", i.stream.reality.settings.spider_x)
    ∷ (
      not (is_empty i.stream.reality.settings.mldsa65_verify),
      "pqv",
      i.stream.reality.settings.mldsa65_verify,
    )
    ∷ []

-- The parameters that the security adds.
abbrev pub security_params : Inbound → Security → Result Fields
security_params i tls = ok (tls_params i (equals_text i.stream.security "tls"))
security_params i reality = do
  name ←
      when (not (is_arr_empty i.stream.reality.server_names))
        (first_part i.stream.reality.server_names)
  id ← first_id i.stream.reality.short_ids
  ok (reality_params i name id)
security_params i neither = ok ((true, "security", str "none") ∷ [])

abbrev pub base_params : Inbound → Fields
base_params i = (true, "type", i.stream.network) ∷ []

unfoldable pub gen_trojan_link :
    (is_url : String → Bool) (lower : String → String) → Inbound → Share → Result Link
gen_trojan_link is_url lower i a = do
  transport ← transport_params lower i.stream (network_of i.stream.network)
  security ← security_params i (security_of (chosen i a.force_tls))
  checked is_url "trojan" (record {
    user = a.client_password;
    address = default (str "") a.address;
    port = default i.port a.port;
    params = base_params i ++ transport ++ security;
    remark = default (str "") a.remark;
  })
