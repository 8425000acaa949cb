-- ===== src/Inbound/Settings/Http.antt =====
-- `Inbound.HttpSettings` (web/assets/js/model/inbound.js).
use ax_ui.Common.{
  ◌≡◌, refl, true, false, ℕ, List, [], ◌∷◌, ◌++◌, map, Result, ok, ◌>>=◌, traverse, All, erase_idx,
}
use ax_ui.Js.{Value, bool, arr, obj, entries, default, of_list}
use ax_ui.Js.Json.{erase, is_json, default-erase}
use ax_ui.Js.Lookup.{open_json, open_json-erase}
use ax_ui.Js.Arrays.{map_array, map_array-erase}
use ax_ui.Inbound.Clients.Account

pub record HttpSettings : Type 0 where
  pub accounts : List Account.Account
  pub allow_transparent : Value

-- `json.accounts.map(…)`
unfoldable pub from_json : (ℕ → Account.Random) → Value → Result HttpSettings
from_json random json = do
  at ← open_json json
  accounts ← map_array (λ i. Account.from_json (random i)) (at "accounts")
  ok (record {
    accounts = accounts;
    allow_transparent = default (bool false) (at "allowTransparent");
  })

abbrev object : HttpSettings → List Value → Value
object s clients =
    obj (
      entries
        (("accounts", arr (of_list clients)) ∷ ("allowTransparent", s.allow_transparent) ∷ []))

unfoldable pub to_json : HttpSettings → Result Value
to_json s = do clients ← traverse Account.to_json s.accounts; ok (object s clients)

-- `addAccount` and `delAccount`.
unfoldable pub add_account : HttpSettings → Account.Account → HttpSettings
add_account s account = record s { accounts = s.accounts ++ account ∷ [] }

unfoldable pub del_account : HttpSettings → ℕ → HttpSettings
del_account s i = record s { accounts = erase_idx s.accounts i }

-- Every field holds a value that JSON can write.
pub record IsJson (s : HttpSettings) : Type 0 where
  pub accounts : All Account.IsJson s.accounts
  pub allow_transparent : is_json s.allow_transparent ≡ true

-- HTTP settings come back from JSON with what is kept of each client, if JSON can write each field.
pub from_json-to_json_http :
    (random : ℕ → Account.Random) (s : HttpSettings)
    → IsJson s
    → (v : Value) × (to_json s ≡ ok v)
      × (from_json random (erase v) ≡ ok (record s { accounts = map Account.kept s.accounts }))
unfolding from_json to_json
from_json-to_json_http random s h =
    let (vs, w, r) =
      (map_array-erase Account.to_json (λ i. Account.from_json (random i)) Account.kept
        Account.IsJson (λ i. Account.from_json-to_json (random i)) s.accounts h.accounts) in
    (
      object s vs,
      rw w,
      rw (open_json-erase _ _ refl) ((rw (r) (simp (default-erase, h.allow_transparent)))),
    )
