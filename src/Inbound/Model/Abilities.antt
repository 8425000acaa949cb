-- ===== src/Inbound/Model/Abilities.antt =====
-- What an inbound can enable (web/assets/js/model/inbound.js).
use ax_ui.Common.{
  ◌≡◌, refl, ap, ◌⊎◌, inl, inr, true, List, [], ◌∷◌, String, Option, some, arith, any, eq_iff,
  Bool-cases,
}
use ax_ui.Js.{Value, str, equals_text}
use ax_ui.Inbound.Clients.Vless.{Vless}
use ax_ui.Inbound.Settings.Vless.{VlessSettings}
use ax_ui.Inbound.Protocol.{Settings, of_vless}
use ax_ui.Inbound.Model.{
  Inbound, can_enable_reality, can_enable_vision_seed, has_vision, vlesses_of,
}

-- A client is one of a list.
abbrev pub Among : Vless → List Vless → Type 0
Among c [] = ⊥
Among c (d ∷ ds) = (c ≡ d) ⊎ Among c ds

equals_text-text : (v : Value) (t : String) → equals_text v t ≡ true → v ≡ str t
equals_text-text (str s) t h = ap str ((eq_iff s t).0 h)
equals_text-text _ t h = cc

-- A client with a flow of Vision.
abbrev pub IsXtls : Vless → Type 0
IsXtls c = (c.flow ≡ str "xtls-rprx-vision") ⊎ (c.flow ≡ str "xtls-rprx-vision-udp443")

has_vision-IsXtls : (c : Vless) → has_vision c ≡ true → IsXtls c
has_vision-IsXtls c h = elim (Bool-cases (equals_text c.flow "xtls-rprx-vision")) [
  | inl y ↦ inl (equals_text-text c.flow _ y)
  | inr n ↦ inr (equals_text-text c.flow _ (ground arith))
]

any_vision : (cs : List Vless) → any has_vision cs ≡ true → (c : Vless) × Among c cs × IsXtls c
any_vision [] h = cc
any_vision (c ∷ cs) h = elim (Bool-cases (has_vision c)) [
  | inl y ↦ (c, inl refl, has_vision-IsXtls c y)
  | inr n ↦ let (d, m, f) = any_vision cs (ground arith) in (d, inr m, f)
]

some_client :
    (o : Option Settings)
    → any has_vision (vlesses_of o) ≡ true
    → (s : VlessSettings) × (c : Vless) × (o ≡ some (of_vless s)) × Among c s.vlesses × IsXtls c
some_client (some (of_vless s)) h = let (c, m, f) = any_vision s.vlesses h in (s, c, refl, m, f)
some_client _ h = cc

-- The vision seed can be set only for an inbound of the protocol `vless` over the network `tcp`, with
-- TLS or Reality as its security, whose settings are of VLESS and have a client with a flow of Vision;
-- Reality can be enabled for such an inbound.
pub vision_seed-tls_flow :
    (i : Inbound)
    → can_enable_vision_seed i ≡ true
    → (i.protocol ≡ str "vless")
      × (i.stream.network ≡ str "tcp")
      × ((i.stream.security ≡ str "tls") ⊎ (i.stream.security ≡ str "reality"))
      × (can_enable_reality i ≡ true)
      × ((s : VlessSettings) × (c : Vless) × (i.settings ≡ some (of_vless s))
          × Among c s.vlesses
          × IsXtls c)
vision_seed-tls_flow i h = (
  equals_text-text i.protocol "vless" (ground arith),
  equals_text-text i.stream.network "tcp" (ground arith),
  (elim (Bool-cases (equals_text i.stream.security "tls")) [
    | inl y ↦ inl (equals_text-text i.stream.security "tls" y)
    | inr n ↦ inr (equals_text-text i.stream.security "reality" (ground arith))
  ]),
  ground arith,
  some_client i.settings (ground arith),
)
