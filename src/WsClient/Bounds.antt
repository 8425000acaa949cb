-- ===== src/WsClient/Bounds.antt =====
-- The bounds on reconnecting (web/assets/js/websocket.js).
use ax_ui.Common.{ℕ, zero, suc, ◌+◌, ◌≤◌, ◌<◌, List, [], ◌∷◌, ◌++◌, All, arith, Bool, erase_idx}
use ax_ui.WsClient.{
  Client, max_reconnect_attempts, backoff, new, connect, on_open, on_error, on_close, disconnect,
}
use ax_ui.WsClient.Step.{
  Step, Reach, call_connect, call_disconnect, opens, fails, closes, too_large, late_close, timer,
  here, next,
}

abbrev IsDelay : ℕ → Type 0
IsDelay d = (1000 ≤ d) × (d ≤ 512000)

-- No more attempts than the limit, and each timer within the bounds of the backoff.
pub record IsBounded (c : Client) : Type 0 where
  pub attempts : c.reconnect_attempts ≤ max_reconnect_attempts
  pub delays : All IsDelay c.timers

backoff_bounds : (n : ℕ) → n < 10 → IsDelay (backoff (n + 1))
backoff_bounds zero h = omega arith
backoff_bounds (suc zero) h = omega arith
backoff_bounds (suc (suc zero)) h = omega arith
backoff_bounds (suc (suc (suc zero))) h = omega arith
backoff_bounds (suc (suc (suc (suc zero)))) h = omega arith
backoff_bounds (suc (suc (suc (suc (suc zero))))) h = omega arith
backoff_bounds (suc (suc (suc (suc (suc (suc zero)))))) h = omega arith
backoff_bounds (suc (suc (suc (suc (suc (suc (suc zero))))))) h = omega arith
backoff_bounds (suc (suc (suc (suc (suc (suc (suc (suc zero)))))))) h = omega arith
backoff_bounds (suc (suc (suc (suc (suc (suc (suc (suc (suc zero))))))))) h = omega arith
backoff_bounds (suc (suc (suc (suc (suc (suc (suc (suc (suc (suc n)))))))))) h =
    absurd (omega arith)

All-snoc : (ds : List ℕ) (d : ℕ) → All IsDelay ds → IsDelay d → All IsDelay (ds ++ d ∷ [])
All-snoc [] d h k = (k, tt)
All-snoc (e ∷ ds) d h k = (h.0, All-snoc ds d h.1 k)

All-erase_idx : (ds : List ℕ) (i : ℕ) → All IsDelay ds → All IsDelay (erase_idx ds i)
All-erase_idx [] i h = tt
All-erase_idx (d ∷ ds) zero h = h.1
All-erase_idx (d ∷ ds) (suc i) h = (h.0, All-erase_idx ds i h.1)

connect-IsBounded : (throws : Bool) (c : Client) → IsBounded c → IsBounded (connect throws c)
unfolding connect
connect-IsBounded throws c h = ground arith

on_close-IsBounded : (c : Client) → IsBounded c → IsBounded (on_close c)
unfolding on_close
on_close-IsBounded c h = ground (
  arith,
  backoff_bounds c.reconnect_attempts,
  All-snoc c.timers (backoff (c.reconnect_attempts + 1)) h.delays,
)

-- Every step keeps the bounds.
Step-IsBounded : {c d : Client} → Step c d → IsBounded c → IsBounded d
unfolding disconnect on_open on_error
Step-IsBounded {c} (call_connect throws) h = connect-IsBounded throws c h
Step-IsBounded call_disconnect h = record { attempts = h.attempts; delays = h.delays }
Step-IsBounded (opens n e r) h = record { attempts = omega arith; delays = h.delays }
Step-IsBounded fails h = record { attempts = h.attempts; delays = h.delays }
Step-IsBounded (closes n e o) h =
    on_close-IsBounded _ (record { attempts = h.attempts; delays = h.delays })
Step-IsBounded (too_large n e r) h = record { attempts = h.attempts; delays = h.delays }
Step-IsBounded (late_close i l) h =
    on_close-IsBounded _ (record { attempts = h.attempts; delays = h.delays })
Step-IsBounded {c} (timer i throws l) h =
    connect-IsBounded throws _
      (record { attempts = h.attempts; delays = All-erase_idx c.timers i h.delays })

Reach-IsBounded : {c d : Client} → IsBounded c → Reach c d → IsBounded d
Reach-IsBounded h here = h
Reach-IsBounded h (next r s) = Step-IsBounded s (Reach-IsBounded h r)

-- Whatever the page, the sockets and the timers do, a new client never counts more than ten attempts,
-- and every timer that it sets waits at least 1 second and at most 512 seconds.
pub new-IsBounded : {c : Client} → Reach new c → IsBounded c
unfolding new
new-IsBounded r = Reach-IsBounded (record { attempts = omega arith; delays = tt }) r
