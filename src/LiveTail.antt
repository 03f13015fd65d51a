-- ===== src/LiveTail.antt =====
-- frontend/src/hooks/useWebSocket.ts: the live tail. The browser's sockets stand in a list, and one
-- is named by its position there; a socket reports to the hook by events, in any order that the
-- WebSocket interface allows.
pub mod Messages
pub mod Sockets
pub mod Leak
pub mod Tests
use kafka_ui.Base.{
  ℕ, zero, suc, Bool, true, false, not, ◌&&◌, Option, none, some, List, [], ◌∷◌, ◌++◌, length, set,
  get_elem?, take, if◌then◌else◌, Text, codes, truthy,
}
use kafka_ui.Api.Encode.{encode_uri_component}
use kafka_ui.Api.Messages.{MessageRecord}

pub data ConnectionState : Type 0 where
  disconnected connecting connected : ConnectionState

-- `readyState` of a WebSocket.
pub data ReadyState : Type 0 where
  pending open_now closing closed : ReadyState

pub data Command : Type 0 where
  start stop : Command

pub record Socket : Type 0 where
  pub url : Text
  pub ready : ReadyState
  pub sent : List Command

-- The hook's state: `ref` is `wsRef.current`.
pub record Hook : Type 0 where
  pub messages : List MessageRecord
  pub state : ConnectionState
  pub ref : Option ℕ
  pub sockets : List Socket

abbrev pub initial_hook : Hook
initial_hook = record { messages = []; state = disconnected; ref = none; sockets = [] }

-- `ws.send` and `ws.close` on a socket that the page holds.
abbrev pub send : Command → Socket → Socket
send c s = record s { sent = c ∷ s.sent }

abbrev pub close : Socket → Socket
close s = elim s.ready [
  | pending ↦ record s { ready = closing }
  | open_now ↦ record s { ready = closing }
  | closing ↦ s
  | closed ↦ s
]

abbrev pub is_open : Socket → Bool
is_open s = elim s.ready [ open_now ↦ true | _ ↦ false ]

-- A change of the socket at one position.
abbrev pub at_socket : List Socket → ℕ → (Socket → Socket) → List Socket
at_socket [] i change = []
at_socket (s ∷ ss) zero change = change s ∷ ss
at_socket (s ∷ ss) (suc i) change = s ∷ at_socket ss i change

-- What `connect` does past its guard; `encodeURIComponent` may have thrown by then.
unfoldable pub open_socket : Option Text → Hook → Hook
open_socket none h = record h { state = connecting }
open_socket (some ws_url) h = record h {
  state = connecting;
  sockets = h.sockets ++ (record { url = ws_url; ready = pending; sent = [] } ∷ []);
  ref = some (length h.sockets);
}

-- `https` says whether the page came by https, `host` is `window.location.host`.
module _ (https : Bool) (host : Text) where
  -- `none` where `encodeURIComponent` throws.
  unfoldable pub socket_url : Text → Option Text → Option Text
  unfolding encode_uri_component
  socket_url url filter =
      let base = (if https then codes "wss:" else codes "ws:") ++ (codes "//" ++ (host ++ url)) in
      elim filter [
        | none ↦ some base
        | some f ↦
            if truthy f
            then elim (encode_uri_component f) [
              | none ↦ none
              | some e ↦ some (base ++ (codes "?filter=" ++ e))
            ]
            else some base
      ]

  unfoldable pub connect : Option Text → Option Text → Hook → Hook
  unfolding socket_url open_socket
  connect none filter h = h
  connect (some url) filter h = elim h.ref [
    | some i ↦ h
    | none ↦ if truthy url then open_socket (socket_url url filter) h else h
  ]

unfoldable pub disconnect : Hook → Hook
disconnect h = elim h.ref [
  | none ↦ record h { state = disconnected }
  | some i ↦ record h {
    sockets = at_socket h.sockets i (λ s. close (if is_open s then send stop s else s));
    ref = none;
    state = disconnected;
  }
]

unfoldable pub clear : Hook → Hook
clear h = record h { messages = [] }

-- The cleanup of the effect, when the page is left.
unfoldable pub unmount : Hook → Hook
unmount h = elim h.ref [
  | none ↦ h
  | some i ↦ record h { sockets = at_socket h.sockets i close; ref = none }
]

-- The handlers of the socket at position `i`.
unfoldable pub on_open : ℕ → Hook → Hook
on_open i h = record h { state = connected; sockets = at_socket h.sockets i (send start) }

abbrev pub limit : ℕ
limit = 1000

-- The data parsed as JSON, `none` if that failed.
unfoldable pub on_message : Option MessageRecord → Hook → Hook
on_message none h = h
on_message (some m) h = record h { messages = take limit (m ∷ h.messages) }

unfoldable pub on_close : Hook → Hook
on_close h = record h { state = disconnected; ref = none }

unfoldable pub on_error : ℕ → Hook → Hook
on_error i h = record h { sockets = at_socket h.sockets i close }

-- What the page calls, and what the socket at a position reports.
pub data Event : Type 0 where
  connect_called : Option Text → Option Text → Event
  disconnect_called clear_called unmounted : Event
  opened failed : ℕ → Event
  received : ℕ → Option MessageRecord → Event
  ended : ℕ → Event

-- The change that the browser makes to a socket, if it may report so: a socket opens when it was
-- pending, receives while it is open, and ends once.
abbrev pub browser_step : Event → ReadyState → Option ReadyState
browser_step (opened i) pending = some open_now
browser_step (received i m) open_now = some open_now
browser_step (failed i) pending = some pending
browser_step (failed i) open_now = some open_now
browser_step (failed i) closing = some closing
browser_step (ended i) pending = some closed
browser_step (ended i) open_now = some closed
browser_step (ended i) closing = some closed
browser_step _ _ = none

unfoldable pub set_ready : ℕ → ReadyState → Hook → Hook
set_ready i r h = record h { sockets = at_socket h.sockets i (λ s. record s { ready = r }) }

abbrev pub ready_of : ℕ → Hook → ReadyState
ready_of i h = elim (get_elem? h.sockets i) [ none ↦ closed | some s ↦ s.ready ]

-- A report of the browser and the handler that it runs; nothing where the report cannot happen.
unfoldable pub report : ℕ → Event → (Hook → Hook) → Hook → Hook
unfolding set_ready
report i e handler h = elim (browser_step e (ready_of i h)) [
  | none ↦ h
  | some r ↦ handler (set_ready i r h)
]

module _ (https : Bool) (host : Text) where
  unfoldable pub act : Hook → Event → Hook
  unfolding connect disconnect clear unmount report on_open on_message on_close on_error
  act h (connect_called url filter) = connect https host url filter h
  act h disconnect_called = disconnect h
  act h clear_called = clear h
  act h unmounted = unmount h
  act h (opened i) = report i (opened i) (on_open i) h
  act h (failed i) = report i (failed i) (on_error i) h
  act h (received i m) = report i (received i m) (on_message m) h
  act h (ended i) = report i (ended i) on_close h

  unfoldable pub run : Hook → List Event → Hook
  run h [] = h
  run h (e ∷ es) = run (act h e) es
