-- ===== src/WsClient.antt =====
-- `WebSocketClient` (web/assets/js/websocket.js): the connection that pushes updates to the panel.
-- A socket is a number; the ones that were given up stay, and their events still reach the handlers.
-- `connect` takes the URL as built and whether the browser's `WebSocket` constructor throws.
pub mod Listeners
pub mod Step
pub mod Bounds
pub mod Disconnect
pub mod Attempts
use ax_ui.Common.{
  ℕ, ◌+◌, ◌-◌, ◌*◌, ◌^◌, Bool, true, false, not, ◌&&◌, ◌||◌, List, [], ◌∷◌, ◌++◌, String, Option,
  none, some, ◌==◌, ltb, eqb, if◌then◌else◌,
}

-- `WebSocket.readyState`.
pub data ReadyState : Type 0 where
  connecting is_open closing closed : ReadyState

abbrev pub max_reconnect_attempts : ℕ
max_reconnect_attempts = 10

abbrev pub reconnect_delay : ℕ
reconnect_delay = 1000

-- The fields of the client that its connection handling reads and writes, with the state of the
-- socket that `ws` refers to, the sockets it no longer refers to that have yet to close, the delays of
-- the timers that run, and the events emitted so far.
pub record Client : Type 0 where
  pub ws : Option ℕ
  pub ready : ReadyState
  pub given_up : List ℕ
  pub next_socket : ℕ
  pub reconnect_attempts : ℕ
  pub is_connected : Bool
  pub should_reconnect : Bool
  pub timers : List ℕ
  pub emitted : List String

unfoldable pub new : Client
new = record {
  ws = none;
  ready = closed;
  given_up = [];
  next_socket = 0;
  reconnect_attempts = 0;
  is_connected = false;
  should_reconnect = true;
  timers = [];
  emitted = [];
}

abbrev emit : String → Client → Client
emit event c = record c { emitted = c.emitted ++ event ∷ [] }

-- `this.ws && (readyState === OPEN || readyState === CONNECTING)`
abbrev is_live : ReadyState → Bool
is_live connecting = true
is_live is_open = true
is_live _ = false

abbrev pub has_socket : Option ℕ → Bool
has_socket none = false
has_socket (some n) = true

abbrev pub is_closed : ReadyState → Bool
is_closed closed = true
is_closed _ = false

-- The socket that is left behind when `ws` changes, if it has yet to close.
abbrev pub left_behind : Option ℕ → ReadyState → List ℕ
left_behind none r = []
left_behind (some n) r = if is_closed r then [] else n ∷ []

-- `connect`; `throws` says whether `new WebSocket(url)` throws.
unfoldable pub connect : Bool → Client → Client
connect throws c =
    if has_socket c.ws && is_live c.ready
    then c
    else if throws
    then emit "error" (record c { should_reconnect = true })
    else record c {
      should_reconnect = true;
      ws = some c.next_socket;
      ready = connecting;
      given_up = c.given_up ++ left_behind c.ws c.ready;
      next_socket = c.next_socket + 1;
    }

-- `onopen`, `onerror` and `onclose`: each acts on the client, whichever socket it was set on.
unfoldable pub on_open : Client → Client
on_open c = emit "connected" (record c { is_connected = true; reconnect_attempts = 0 })

unfoldable pub on_error : Client → Client
on_error c = emit "error" c

-- `reconnectDelay * 2 ** (reconnectAttempts - 1)`, after the attempt was counted.
abbrev pub backoff : ℕ → ℕ
backoff attempts = reconnect_delay * 2 ^ (attempts - 1)

unfoldable pub on_close : Client → Client
on_close c =
    let d = emit "disconnected" (record c { is_connected = false }) in
    if d.should_reconnect && ltb d.reconnect_attempts max_reconnect_attempts
    then record d {
      reconnect_attempts = d.reconnect_attempts + 1;
      timers = d.timers ++ backoff (d.reconnect_attempts + 1) ∷ [];
    }
    else d

-- `disconnect`: the socket starts to close, and no timer is cancelled.
unfoldable pub disconnect : Client → Client
disconnect c = record c {
  should_reconnect = false;
  ws = none;
  ready = closed;
  given_up = c.given_up ++ left_behind c.ws c.ready;
}

-- `send`: whether the data goes to the socket.
abbrev is_ready : ReadyState → Bool
is_ready is_open = true
is_ready _ = false

unfoldable pub sends : Client → Bool
sends c = has_socket c.ws && is_ready c.ready
