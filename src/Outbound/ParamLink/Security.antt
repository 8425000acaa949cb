-- ===== src/Outbound/ParamLink/Security.antt =====
-- The security in a link with parameters, written and read (web/assets/js/model/inbound.js and outbound.js).
use ax_ui.Common.{
  Result, ◌≡◌, refl, ap, sym, arith, eq_iff, Bool, true, false, not, ◌&&◌, List, [], ◌∷◌, String,
  ◌==◌, Option, none, some, ok, if◌then◌else◌, Bool-cases, inl, inr,
}
use ax_ui.Js.{Value, undefined, str, arr, strings, nil, is_string, to_text, join_text}
use ax_ui.Js.Operators.{comma, has_length}
use ax_ui.Js.Joined.{split-join_text}
use ax_ui.Js.Part.{when}
use ax_ui.Js.Text.{split}
use ax_ui.ObjectUtil.{is_empty, is_arr_empty}
use ax_ui.Inbound.Model.{Inbound}
use ax_ui.Inbound.VmessLink.{Fields}
use ax_ui.Inbound.VlessLink.{
  Share, Security, tls, reality, neither, shows_flow, security_params, reality_params, first_part,
  first_id, first_text,
}
use ax_ui.Inbound.TrojanLink as Trojan
use ax_ui.Outbound.Stream.Settings as Stream
use ax_ui.Outbound.VmessLink.Carried.{AreNames}
use ax_ui.Outbound.VmessLink.Values.{joined_nonempty}
use ax_ui.Outbound.ParamLink.{read_security, split_names, text_or}
use ax_ui.Outbound.ParamLink.Carried.{
  carried_tls, carried_reality, carried_security, carried_flow, has_tls, name_of, text_at, first_of,
}
use ax_ui.Outbound.ParamLink.Lookup.{Sees, shown_back, print_back}

-- The names of the protocols, written as one text and split.
names_back :
    (ps : List String)
    → AreNames ps
    → split_names (some (to_text (arr (strings ps)))) ≡ arr (strings ps)
unfolding split_names to_text
names_back [] h = unfold join_text in refl
names_back (p ∷ ps) (n, c) =
    rw (joined_nonempty p ps n) (ap (λ l. arr (strings l)) (split-join_text comma p ps c))

alpn_back :
    (b : Bool) (v : Value)
    → (b ≡ true → (ps : List String) × (v ≡ arr (strings ps)) × AreNames ps)
    → split_names (if b then some (to_text v) else none) ≡ (if b then v else arr nil)
unfolding split_names
alpn_back true v h = let (ps, e, names) = h refl in rw e (names_back ps names)
alpn_back false v h = refl

text_not_arr_empty : (t : String) → is_arr_empty (str t) ≡ false
text_not_arr_empty t = ground arith

server_back :
    (v : Value)
    → is_string v ≡ true
    → (w : Value) × (when (not (is_arr_empty v)) (first_part v) ≡ ok w)
      × (str (text_or "" (if not (is_arr_empty v) then some (to_text w) else none)) ≡ first_of v)
unfolding first_part first_of to_text
server_back (str t) h =
    let e = text_not_arr_empty t in (str (first_text (split comma t)), rw e refl, rw e refl)
server_back _ h = absurd (cc h)

id_back :
    (v : Value)
    → is_string v ≡ true
    → (w : Value) × (first_id v ≡ ok w)
      × (str (text_or "" (if has_length v then some (to_text w) else none)) ≡ first_of v)
unfolding first_part first_of to_text split
id_back (str t) h = elim (Bool-cases (t == "")) [
  | inl y ↦ (
    undefined,
    rw y refl,
    rw y (ap (λ u. str (first_text (split comma u))) (sym ((eq_iff t "").0 y))),
  )
  | inr n ↦ (str (first_text (split comma t)), rw n refl, rw n refl)
]
id_back _ h = absurd (cc h)

-- The reader of TLS, given what it finds.
tls_read :
    (i : Inbound) (get : String → Option String) (s : Stream.StreamSettings)
    → (has_tls i ≡ true → (ps : List String) × (i.stream.tls.alpn ≡ arr (strings ps)) × AreNames ps)
    → get "sni" ≡ text_at "sni" (Trojan.tls_params i (has_tls i))
    → get "alpn" ≡ text_at "alpn" (Trojan.tls_params i (has_tls i))
    → get "fp" ≡ text_at "fp" (Trojan.tls_params i (has_tls i))
    → get "ech" ≡ text_at "ech" (Trojan.tls_params i (has_tls i))
    → read_security get "tls" s ≡ record s { tls = carried_tls i }
unfolding read_security
tls_read i get s names sni alpn fp ech =
    rw (sni, alpn, fp, ech)
      (rw
        (
          alpn_back (has_tls i) i.stream.tls.alpn names,
          shown_back (has_tls i && not (is_empty i.stream.tls.sni)) i.stream.tls.sni,
          print_back (has_tls i) i.stream.tls.settings.fingerprint,
          shown_back (has_tls i && has_length i.stream.tls.settings.ech_config_list)
              i.stream.tls.settings.ech_config_list,
        )
        refl)

-- The first server name and the first id, as `reality_params` has them, and the reader of Reality.
record Firsts (i : Inbound) : Type 0 where
  name : Value
  id : Value
  named :
      when
        (not (is_arr_empty i.stream.reality.server_names))
        (first_part i.stream.reality.server_names)
      ≡ ok name
  ided : first_id i.stream.reality.short_ids ≡ ok id
  read :
      (get : String → Option String) (s : Stream.StreamSettings)
      → get "pbk" ≡ text_at "pbk" (Trojan.reality_params i name id)
      → get "fp" ≡ text_at "fp" (Trojan.reality_params i name id)
      → get "sni" ≡ text_at "sni" (Trojan.reality_params i name id)
      → get "sid" ≡ text_at "sid" (Trojan.reality_params i name id)
      → get "spx" ≡ text_at "spx" (Trojan.reality_params i name id)
      → get "pqv" ≡ text_at "pqv" (Trojan.reality_params i name id)
      → read_security get "reality" s ≡ record s { reality = carried_reality i }

firsts :
    (i : Inbound)
    → is_string i.stream.reality.server_names ≡ true
    → is_string i.stream.reality.short_ids ≡ true
    → Firsts i
unfolding read_security to_text
firsts i servers ids =
    let (name, wn, rn) = server_back i.stream.reality.server_names servers in
    let (id, wi, ri) = id_back i.stream.reality.short_ids ids in
    record {
      name = name;
      id = id;
      named = wn;
      ided = wi;
      read = λ get s pbk fp sni sid spx pqv.
          rw (pbk, fp, sni, sid, spx, pqv)
            (rw
              (
                rn,
                ri,
                shown_back (not (is_empty i.stream.reality.settings.spider_x))
                    i.stream.reality.settings.spider_x,
                shown_back (not (is_empty i.stream.reality.settings.mldsa65_verify))
                    i.stream.reality.settings.mldsa65_verify,
              )
              refl);
    }

-- What the security needs: its parameters are written, and they are read.
pub record Secures (i : Inbound) (k : Security) (params : Result Fields) : Type 0 where
  pub fields : Fields
  pub written : params ≡ ok fields
  pub named : text_at "security" fields ≡ some (name_of k)
  pub read :
      (get : String → Option String) (s : Stream.StreamSettings)
      → Sees get fields
      → read_security get (name_of k) s ≡ carried_security i s k

pub secures :
    (i : Inbound) (a : Share) (k : Security)
    → (has_tls i ≡ true → (ps : List String) × (i.stream.tls.alpn ≡ arr (strings ps)) × AreNames ps)
    → (k ≡ reality → is_string i.stream.reality.server_names ≡ true)
    → (k ≡ reality → is_string i.stream.reality.short_ids ≡ true)
    → (q : Secures i k (security_params i a k)) × (str (text_or "" (text_at "flow" q.fields))
        ≡ carried_flow i a k)
unfolding read_security to_text
secures i a neither names servers ids =
    (record { fields = _; written = refl; named = refl; read = λ get s e. refl }, refl)
secures i a tls names servers ids = (
  record {
    fields = _;
    written = refl;
    named = refl;
    read = λ get s e. tls_read i get s names e.sni e.alpn e.fp e.ech;
  },
  shown_back (has_tls i && shows_flow i a) a.flow,
)
secures i a reality names servers ids =
    let f = firsts i (servers refl) (ids refl) in
    (
      record {
        fields = reality_params i a f.name f.id;
        written = rw f.named (rw f.ided refl);
        named = refl;
        read = λ get s e. f.read get s e.pbk e.fp e.sni e.sid e.spx e.pqv;
      },
      shown_back (shows_flow i a) a.flow,
    )

pub Secures-trojan :
    (i : Inbound) (k : Security)
    → (has_tls i ≡ true → (ps : List String) × (i.stream.tls.alpn ≡ arr (strings ps)) × AreNames ps)
    → (k ≡ reality → is_string i.stream.reality.server_names ≡ true)
    → (k ≡ reality → is_string i.stream.reality.short_ids ≡ true)
    → Secures i k (Trojan.security_params i k)
unfolding read_security to_text
Secures-trojan i neither names servers ids = record {
  fields = _;
  written = refl;
  named = refl;
  read = λ get s e. refl;
}
Secures-trojan i tls names servers ids = record {
  fields = _;
  written = refl;
  named = refl;
  read = λ get s e. tls_read i get s names e.sni e.alpn e.fp e.ech;
}
Secures-trojan i reality names servers ids =
    let f = firsts i (servers refl) (ids refl) in
    record {
      fields = Trojan.reality_params i f.name f.id;
      written = rw f.named (rw f.ided refl);
      named = refl;
      read = λ get s e. f.read get s e.pbk e.fp e.sni e.sid e.spx e.pqv;
    }
