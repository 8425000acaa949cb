-- ===== src/Inbound/Settings/Mixed.antt =====
-- `Inbound.MixedSettings` (web/assets/js/model/inbound.js).
use ax_ui.Common.{
  ◌≡◌, refl, true, false, ℕ, List, [], ◌∷◌, ◌++◌, map, Result, ok, ◌>>=◌, traverse, All,
  if◌then◌else◌, erase_idx,
}
use ax_ui.Js.{Value, undefined, bool, str, arr, obj, entries, default, of_list, equals_text}
use ax_ui.Js.Json.{erase, is_json, default-erase, default-is_json, erase-is_json}
use ax_ui.Js.Lookup.{open_json, open_json-erase}
use ax_ui.Js.Arrays.{map_array, map_array-erase}
use ax_ui.Common.{Bool-cases, inl, inr}
use ax_ui.Inbound.Clients.Account

pub record MixedSettings : Type 0 where
  pub auth : Value
  pub accounts : List Account.Account
  pub udp : Value
  pub ip : Value

-- `json.auth === 'password'` has the accounts read; without them the constructor makes one.
abbrev accounts_of : (ℕ → Account.Random) → Value → Value → Result (List Account.Account)
accounts_of random auth accounts =
    if equals_text auth "password"
    then map_array (λ i. Account.from_json (random i)) accounts
    else ok (Account.new (random 0) ∷ [])

unfoldable pub from_json : (ℕ → Account.Random) → Value → Result MixedSettings
from_json random json = do
  at ← open_json json
  accounts ← accounts_of random (at "auth") (at "accounts")
  ok (record {
    auth = default (str "password") (at "auth");
    accounts = accounts;
    udp = default (bool false) (at "udp");
    ip = default (str "127.0.0.1") (at "ip");
  })

abbrev object : MixedSettings → Value → Value
object s accounts =
    obj (entries (("auth", s.auth) ∷ ("accounts", accounts) ∷ ("udp", s.udp) ∷ ("ip", s.ip) ∷ []))

unfoldable pub to_json : MixedSettings → Result Value
to_json s =
    if equals_text s.auth "password"
    then (do accounts ← traverse Account.to_json s.accounts; ok (object s (arr (of_list accounts))))
    else ok (object s undefined)

-- `addAccount` and `delAccount`.
unfoldable pub add_account : MixedSettings → Account.Account → MixedSettings
add_account s account = record s { accounts = s.accounts ++ account ∷ [] }

unfoldable pub del_account : MixedSettings → ℕ → MixedSettings
del_account s i = record s { accounts = erase_idx s.accounts i }

-- Every field holds a value that JSON can write.
pub record IsJson (s : MixedSettings) : Type 0 where
  pub auth : is_json s.auth ≡ true
  pub accounts : All Account.IsJson s.accounts
  pub udp : is_json s.udp ≡ true
  pub ip : is_json s.ip ≡ true

-- What is kept: the accounts where passwords are used, and a new random account elsewhere.
abbrev pub kept : (ℕ → Account.Random) → MixedSettings → MixedSettings
kept random s = record s {
  accounts =
      if equals_text s.auth "password"
      then map Account.kept s.accounts
      else Account.new (random 0) ∷ [];
}

read_back :
    (random : ℕ → Account.Random) (s : MixedSettings) (v : Value) (accounts : List Account.Account)
    → IsJson s
    → accounts_of random s.auth (erase v) ≡ ok accounts
    → from_json random (erase (object s v)) ≡ ok (record s { accounts = accounts })
unfolding from_json
read_back random s v accounts h e = rw (open_json-erase _ _ refl) (
    rw (erase-is_json s.auth h.auth)
      (rw e (simp (default-is_json, default-erase, h.auth, h.udp, h.ip))))

-- Mixed settings come back from JSON with their accounts where passwords are used, and with a new
-- random account elsewhere, if JSON can write each field.
pub from_json-to_json_mixed :
    (random : ℕ → Account.Random) (s : MixedSettings)
    → IsJson s
    → (v : Value) × (to_json s ≡ ok v) × (from_json random (erase v) ≡ ok (kept random s))
unfolding to_json
from_json-to_json_mixed random s h = elim (Bool-cases (equals_text s.auth "password")) [
  | inl y ↦
      let (vs, w, r) =
        (map_array-erase Account.to_json (λ i. Account.from_json (random i)) Account.kept
          Account.IsJson (λ i. Account.from_json-to_json (random i)) s.accounts h.accounts) in
      (
        object s (arr (of_list vs)),
        rw y (rw w),
        rw y (read_back random s (arr (of_list vs)) (map Account.kept s.accounts) h (rw y r)),
      )
  | inr n ↦ (
    object s undefined,
    rw n,
    rw n (read_back random s undefined (Account.new (random 0) ∷ []) h (rw n)),
  )
]
