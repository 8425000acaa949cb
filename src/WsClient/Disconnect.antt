-- ===== src/WsClient/Disconnect.antt =====
-- What `disconnect` of `WebSocketClient` (web/assets/js/websocket.js) guarantees, and what it does not.
use ax_ui.Common.{
  ℕ, ◌≡◌, ◌<◌, refl, ◌⊎◌, inl, inr, List, [], ◌∷◌, ◌++◌, arith, Bool, true, false, none, some,
  erase_idx, length, length-append,
}
use ax_ui.WsClient.{
  Client, connect, on_open, on_error, on_close, disconnect, has_socket, sends, is_open,
}
use ax_ui.WsClient.Step.{
  Step, Reach, call_connect, call_disconnect, opens, fails, closes, too_large, late_close, timer,
  here, next,
}

-- No socket, no timer, and no wish to reconnect.
pub record IsDown (c : Client) : Type 0 where
  pub no_socket : c.ws ≡ none
  pub no_timer : c.timers ≡ []
  pub stays : c.should_reconnect ≡ false

on_close-IsDown : (c : Client) → IsDown c → IsDown (on_close c)
unfolding on_close
on_close-IsDown c h = ground arith

-- Once it is down, a client stays down, whatever its old sockets do, until the page calls `connect`.
pub Step-IsDown :
    {c d : Client} → Step c d → IsDown c → IsDown d ⊎ ((throws : Bool) × (d ≡ connect throws c))
unfolding on_open on_error disconnect
Step-IsDown (call_connect throws) h = inr (throws, refl)
Step-IsDown call_disconnect h =
    inl (record { no_socket = refl; no_timer = h.no_timer; stays = refl })
Step-IsDown (opens n e r) h = absurd (cc (e, h.no_socket))
Step-IsDown fails h =
    inl (record { no_socket = h.no_socket; no_timer = h.no_timer; stays = h.stays })
Step-IsDown (closes n e o) h = absurd (cc (e, h.no_socket))
Step-IsDown (too_large n e r) h = absurd (cc (e, h.no_socket))
Step-IsDown (late_close i l) h =
    inl (
      on_close-IsDown _
        (record { no_socket = h.no_socket; no_timer = h.no_timer; stays = h.stays }))
Step-IsDown {c} (timer i throws l) h = absurd (no_index c.timers i h.no_timer l)
  where
    no_index : (ds : List ℕ) (i : ℕ) → ds ≡ [] → i < length ds → ⊥
    no_index [] i e l = omega arith
    no_index (d ∷ ds) i e l = cc

-- A timer that was set before `disconnect` still runs out, and opens a connection again: the client
-- then has a socket and wants to reconnect.
pub disconnect-timer :
    (c : Client) (i : ℕ)
    → i < length c.timers
    → let d = connect false (record (disconnect c) { timers = erase_idx c.timers i }) in
      Step (disconnect c) d × (has_socket d.ws ≡ true) × (d.should_reconnect ≡ true)
unfolding disconnect connect
disconnect-timer c i h = (timer i false h, refl, refl)

-- A client whose socket is replaced: the page disconnects and connects again, and the new socket opens.
abbrev reopened : Client → Client
reopened c = on_open (record (connect false (disconnect c)) { ready = is_open })

-- The same client after the socket that was replaced has closed too.
abbrev pub replaced : Client → Client
replaced c =
    on_close
      (record (reopened c) { given_up = erase_idx (reopened c).given_up (length c.given_up) })

-- A client that is connected, and that the page disconnects and connects again, can come to this: its
-- new socket is open and takes data, but the client is marked as not connected, and a timer that
-- connects once more is set, since the old socket closes after the new one has opened.
pub late_close_open :
    (c : Client) (n : ℕ)
    → c.ws ≡ some n
    → c.ready ≡ is_open
    → Reach c (replaced c)
      × ((replaced c).is_connected ≡ false)
      × (sends (replaced c) ≡ true)
      × ((replaced c).timers ≡ c.timers ++ 1000 ∷ [])
unfolding on_close on_open sends disconnect connect
late_close_open c n w r =
    let opened =
      next (next (next here call_disconnect) (call_connect false))
        (opens c.next_socket refl refl) in
    (
      next opened (
          late_close (length c.given_up) (
            rw (w, r, length-append (c.given_up ++ n ∷ []) [], length-append c.given_up (n ∷ []))
              (omega arith))),
      refl,
      refl,
      refl,
    )
