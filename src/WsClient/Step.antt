-- ===== src/WsClient/Step.antt =====
-- What can happen to a `WebSocketClient` (web/assets/js/websocket.js): calls by the page, events of
-- its sockets, the current one or one that was given up, and timers.
use ax_ui.Common.{ℕ, Bool, some, ◌<◌, ◌≡◌, false, erase_idx, length}
use ax_ui.WsClient.{
  Client, connecting, is_open, closing, closed, is_closed, connect, on_open, on_error, on_close,
  disconnect,
}

pub data Step (c : Client) : Client → Type 0 where
  call_connect : (throws : Bool) → Step c (connect throws c)
  call_disconnect : Step c (disconnect c)
  -- The current socket opens.
  opens :
      (n : ℕ)
      → c.ws ≡ some n
      → c.ready ≡ connecting
      → Step c (on_open (record c { ready = is_open }))
  -- The current socket fails, or closes.
  fails : Step c (on_error c)
  closes :
      (n : ℕ)
      → c.ws ≡ some n
      → is_closed c.ready ≡ false
      → Step c (on_close (record c { ready = closed }))
  -- A message is too large: `onmessage` calls `ws.close()`.
  too_large : (n : ℕ) → c.ws ≡ some n → c.ready ≡ is_open → Step c (record c { ready = closing })
  -- A socket that the client no longer refers to closes, once: its handler is still set.
  late_close :
      (i : ℕ)
      → i < length c.given_up
      → Step c (on_close (record c { given_up = erase_idx c.given_up i }))
  -- A timer runs out.
  timer :
      (i : ℕ) (throws : Bool)
      → i < length c.timers
      → Step c (connect throws (record c { timers = erase_idx c.timers i }))

pub data Reach (c : Client) : Client → Type 0 where
  here : Reach c c
  next : {d e : Client} → Reach c d → Step d e → Reach c e
