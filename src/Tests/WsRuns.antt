-- ===== src/Tests/WsRuns.antt =====
-- The WebSocket client (web/assets/js/websocket.js).
use ax_ui.Common.{◌≡◌, refl, true, false, [], ◌∷◌, ◌⊎◌, arith, Bool, some, erase_idx}
use ax_ui.Js.{str, obj, entries, nat}
use ax_ui.WsClient.{
  Client, new, connect, on_open, on_close, disconnect, has_socket, sends, is_open,
  max_reconnect_attempts,
}
use ax_ui.WsClient.Step.{Step, Reach, call_connect, call_disconnect, closes, timer, here, next}
use ax_ui.WsClient.Bounds.{IsBounded, new-IsBounded}
use ax_ui.WsClient.Disconnect.{IsDown, Step-IsDown, disconnect-timer, late_close_open, replaced}
use ax_ui.WsClient.Attempts.{closed_in_attempts}
use ax_ui.WsClient.Listeners.{Listeners, on, off, emit, emit-on, emit-off, on_message, called}

-- The client after its first connection failed.
abbrev failed : Client
failed = on_close (record (connect false new) { ready = ax_ui.WsClient.closed })

failed_timers : failed.timers ≡ 1000 ∷ []
unfolding on_close connect new
failed_timers = refl

Reach-failed : Reach new failed
unfolding new connect
Reach-failed = next (next here (call_connect false)) (closes 0 refl refl)

new-IsBounded_example : IsBounded failed
new-IsBounded_example = new-IsBounded Reach-failed

disconnect-timer_example :
    let d = connect false (record (disconnect failed) { timers = erase_idx failed.timers 0 }) in
    Step (disconnect failed) d × (has_socket d.ws ≡ true) × (d.should_reconnect ≡ true)
unfolding on_close connect new
disconnect-timer_example = disconnect-timer failed 0 (omega arith)

disconnect-IsDown : IsDown (disconnect new)
unfolding disconnect new
disconnect-IsDown = record { no_socket = refl; no_timer = refl; stays = refl }

Step-IsDown_example :
    IsDown (disconnect (disconnect new))
    ⊎ ((throws : Bool) × (disconnect (disconnect new) ≡ connect throws (disconnect new)))
Step-IsDown_example = Step-IsDown call_disconnect disconnect-IsDown

-- A client that is connected.
abbrev online : Client
online = on_open (record (connect false new) { ready = is_open })

late_close_open_example :
    Reach online (replaced online)
    × ((replaced online).is_connected ≡ false)
    × (sends (replaced online) ≡ true)
    × ((replaced online).timers ≡ 1000 ∷ [])
unfolding on_open connect new
late_close_open_example = late_close_open online 0 refl refl

-- The first socket fails, the timer runs out, and the second one fails.
abbrev two_failures : Reach failed (
    on_close
      (record (connect false (record failed { timers = [] })) { ready = ax_ui.WsClient.closed }))
unfolding on_close connect new
two_failures = next (next here (timer 0 false (omega arith))) (closes 1 refl refl)

closed_in_attempts_example :
    (on_close (record (connect false (record failed { timers = [] })) {
      ready = ax_ui.WsClient.closed;
    })).reconnect_attempts
    ≡ 2
unfolding on_close connect new
closed_in_attempts_example = closed_in_attempts two_failures refl refl (omega arith)

abbrev listeners : Listeners
listeners = on "traffic" 2 (on "traffic" 1 [])

emit_run : emit "traffic" listeners ≡ 1 ∷ 2 ∷ []
unfolding emit on
emit_run = refl

emit-on_example : emit "traffic" (on "traffic" 3 listeners) ≡ 1 ∷ 2 ∷ 3 ∷ []
unfolding emit on
emit-on_example = emit-on "traffic" "traffic" 3 listeners

emit-off_example : emit "traffic" (off "traffic" 1 listeners) ≡ 2 ∷ []
unfolding emit on
emit-off_example = emit-off "traffic" "traffic" 1 listeners

on_message_run :
    on_message 20
      (some (obj (entries (("type", str "traffic") ∷ ("payload", nat 1) ∷ []))))
      listeners
    ≡ called (1 ∷ 2 ∷ [])
unfolding on_message emit on
on_message_run = refl
