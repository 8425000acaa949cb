-- ===== src/Inbound/Clients/Account.antt =====
-- `Inbound.MixedSettings.SocksAccount` and `Inbound.HttpSettings.HttpAccount` (web/assets/js/model/inbound.js). The values that the constructor draws at random are
-- an argument.
use ax_ui.Common.{◌≡◌, refl, true, [], ◌∷◌, Result, ok, ◌>>=◌}
use ax_ui.Js.{Value, obj, entries, default}
use ax_ui.Js.Json.{is_json, default-erase}
use ax_ui.Js.Lookup.{open_json, open_json-erase}
use ax_ui.Js.Arrays.{ReadsBack}

-- One outcome of the random choices.
pub record Random : Type 0 where
  pub user : Value
  pub pass : Value

pub record Account : Type 0 where
  pub user : Value
  pub pass : Value

-- The constructor with no argument.
abbrev pub new : Random → Account
new random = record { user = random.user; pass = random.pass }

unfoldable pub from_json : Random → Value → Result Account
from_json random json = do
  at ← open_json json
  ok (record { user = default (random.user) (at "user"); pass = default (random.pass) (at "pass") })

unfoldable pub to_json : Account → Result Value
to_json c = ok (obj (entries (("user", c.user) ∷ ("pass", c.pass) ∷ [])))

-- Every field holds a value that JSON can write.
pub record IsJson (c : Account) : Type 0 where
  pub user : is_json c.user ≡ true
  pub pass : is_json c.pass ≡ true

abbrev pub kept : Account → Account
kept c = c

-- A proxy account comes back from JSON as it was, whatever the random choices.
pub from_json-to_json :
    (random : Random) (c : Account) → IsJson c → ReadsBack to_json (from_json random) kept c
unfolding from_json to_json
from_json-to_json random c h =
    (_, refl, refl, rw (open_json-erase _ _ refl) (simp (default-erase, h.user, h.pass)))
