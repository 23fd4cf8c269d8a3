-- ===== src/SocketState.antt =====
-- src/socket_state.rs: whether the socket is worth reading and writing, and the events that say so.
-- The queue of events is shared with the handles and wakers, which only send.
use lapin.Base.{Bool, true, false, Option, none, some, List, [], ◌∷◌, ◌++◌, if◌then◌else◌}

pub data SocketEvent : Type 0 where
  readable writable wake : SocketEvent

pub record SocketState : Type 0 where
  pub readable : Bool
  pub writable : Bool
  pub events : List SocketEvent

-- `std::task::Poll`.
pub data Poll {ℓ} (A : Type ℓ) : Type ℓ where
  ready : A → Poll A
  pending : Poll A

unfoldable pub new : SocketState
new = record { readable = true; writable = true; events = [] }

unfoldable pub reset : SocketState → SocketState
reset s = record s { readable = true; writable = true }

unfoldable pub send : SocketEvent → SocketState → SocketState
send event s = record s { events = s.events ++ event ∷ [] }

unfoldable pub handle_event : SocketEvent → SocketState → SocketState
handle_event readable s = record s { readable = true }
handle_event writable s = record s { writable = true }
handle_event wake s = s

handle_all : List SocketEvent → SocketState → SocketState
handle_all [] s = s
handle_all (event ∷ events) s = handle_all events (handle_event event s)

-- The `try_recv` loop.
unfoldable pub poll_events : SocketState → SocketState
unfolding handle_all
poll_events s = handle_all s.events (record s { events = [] })

-- `wait`, where an event has come: `none` is a task that is still blocked.
unfoldable pub wait : SocketState → Option SocketState
wait s = elim s.events [
  | [] ↦ none
  | event ∷ events ↦ some (handle_event event (record s { events = events }))
]

unfoldable pub handle_read_poll {ℓ} : {A : Type ℓ} → Poll A → SocketState → Option A × SocketState
handle_read_poll (ready size) s = (some size, s)
handle_read_poll pending s = (none, record s { readable = false })

unfoldable pub handle_write_poll {ℓ} : {A : Type ℓ} → Poll A → SocketState → Option A × SocketState
handle_write_poll (ready size) s = (some size, s)
handle_write_poll pending s = (none, record s { writable = false })

-- What `handle_io_result` asks of an error.
pub record IoError : Type 0 where
  pub interrupted : Bool
  pub wouldblock : Bool
  pub is_io_error : Bool

unfoldable pub handle_io_result {ℓ} :
    {E : Type ℓ} → (E → IoError) → Option E → SocketState → SocketState × Option E
handle_io_result view none s = (s, none)
handle_io_result view (some e) s =
    if (view e).interrupted
    then (send wake s, none)
    else if (view e).wouldblock
    then (s, none)
    else if (view e).is_io_error
    then (record s { readable = false; writable = false }, some e)
    else (s, some e)
