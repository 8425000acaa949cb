-- ===== src/WsClient/Attempts.antt =====
-- How `WebSocketClient` (web/assets/js/websocket.js) counts its attempts to reconnect.
use ax_ui.Common.{ℕ, ◌+◌, ◌≡◌, ◌≤◌, Bool, true, false, ◌&&◌, arith, ltb, erase_idx, if◌then◌else◌}
use Prim.Native.Nat.{min}
use ax_ui.WsClient.{Client, connect, on_error, on_close, max_reconnect_attempts, closed}
use ax_ui.WsClient.Step.{
  Step, Reach, call_connect, call_disconnect, opens, fails, closes, too_large, late_close, timer,
  here, next,
}

-- No socket opens, and the page does not call `disconnect`.
abbrev is_failing : {c d : Client} → Step c d → Bool
is_failing (opens n e r) = false
is_failing call_disconnect = false
is_failing _ = true

abbrev pub all_failing : {c d : Client} → Reach c d → Bool
all_failing here = true
all_failing (next r s) = all_failing r && is_failing s

-- How many sockets close.
abbrev closed_by : {c d : Client} → Step c d → ℕ
closed_by (closes n e o) = 1
closed_by (late_close i l) = 1
closed_by _ = 0

abbrev pub closed_in : {c d : Client} → Reach c d → ℕ
closed_in here = 0
closed_in (next r s) = closed_in r + closed_by s

on_close_attempts :
    (c : Client)
    → c.should_reconnect ≡ true
    → ((on_close c).should_reconnect ≡ true)
      × ((on_close c).reconnect_attempts ≡ (
          if ltb c.reconnect_attempts 10 then c.reconnect_attempts + 1 else c.reconnect_attempts))
unfolding on_close
on_close_attempts c h = ground arith

connect_attempts :
    (throws : Bool) (c : Client)
    → c.should_reconnect ≡ true
    → ((connect throws c).should_reconnect ≡ true)
      × ((connect throws c).reconnect_attempts ≡ c.reconnect_attempts)
unfolding connect
connect_attempts throws c h = ground arith

Step-attempts :
    {c d : Client} (s : Step c d)
    → is_failing s ≡ true
    → c.should_reconnect ≡ true
    → c.reconnect_attempts ≤ 10
    → (d.should_reconnect ≡ true)
      × (d.reconnect_attempts ≡ min 10 (c.reconnect_attempts + closed_by s))
unfolding on_error
Step-attempts {c} (call_connect throws) f h l = ground (arith, connect_attempts throws c h)
Step-attempts call_disconnect f h l = cc
Step-attempts (opens n e r) f h l = cc
Step-attempts fails f h l = (h, omega arith)
Step-attempts {c} (closes n e o) f h l =
    ground (arith, on_close_attempts (record c { ready = closed }) h)
Step-attempts (too_large n e r) f h l = (h, omega arith)
Step-attempts {c} (late_close i b) f h l =
    ground (arith, on_close_attempts (record c { given_up = erase_idx c.given_up i }) h)
Step-attempts {c} (timer i throws b) f h l =
    ground (arith, connect_attempts throws (record c { timers = erase_idx c.timers i }) h)

Reach-attempts :
    {c d : Client} (r : Reach c d)
    → all_failing r ≡ true
    → c.should_reconnect ≡ true
    → c.reconnect_attempts ≤ 10
    → (d.should_reconnect ≡ true)
      × (d.reconnect_attempts ≡ min 10 (c.reconnect_attempts + closed_in r))
Reach-attempts here f h l = (h, omega arith)
Reach-attempts (next r s) f h l =
    let (g, a) = Reach-attempts r (ground arith) h l in
    let (g', b) = Step-attempts s (ground arith) g (omega (arith, a)) in (g', omega (arith, a, b))

-- While no socket opens and the page does not call `disconnect`, each socket that closes counts one
-- attempt until there were ten, and none after; connecting again, by the page or by a timer, counts
-- none and takes none back, if the client may reconnect at first and has counted ten attempts at most.
pub closed_in_attempts :
    {c d : Client} (r : Reach c d)
    → all_failing r ≡ true
    → c.should_reconnect ≡ true
    → c.reconnect_attempts ≤ max_reconnect_attempts
    → d.reconnect_attempts ≡ min max_reconnect_attempts (c.reconnect_attempts + closed_in r)
closed_in_attempts r f h l = (Reach-attempts r f h l).1
