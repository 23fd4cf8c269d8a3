-- ===== src/IoLoop/Control.antt =====
-- src/io_loop.rs: when the loop reads, writes and goes on, and how it sets up and gives up. The frames and
-- the status that it shares with the channels are in `channels`. What it does outside are effects of
-- channel 0.
use lapin.Base.{
  ℕ, ◌*◌, max, Bool, true, false, not, ◌&&◌, ◌||◌, Option, none, some, List, [], ◌∷◌, ◌++◌, map,
  ltb, ◌==◌, is_empty, if◌then◌else◌,
}
use lapin.Acker.{Result, ok, err, kill, killed}
use lapin.Error.{Error, can_recover, is_io_error}
use lapin.ConnectionStatus.{ConnectionState}
use lapin.Frames.{has_pending}
use lapin.Frames.Replies.{connection_resolver}
use lapin.Heartbeat.{millisecond}
use lapin.Buffer.{Buffer, with_capacity, available_space, grow, checkpoint, rollback}
use lapin.Buffer
use lapin.SocketState.{SocketState, IoError}
use lapin.SocketState
use lapin.Command
use lapin.Channel.{Effect, of_frames, rpc, rejected}
use lapin.Channels.{Channels, is_error, is_connected}
use lapin.IoLoop.{
  Serialized, Status, initial, connected, stop, frames_storage, clear_serialized_frames,
}

-- Less the runtime, the address and the heartbeat. A backoff is the delays that it gives.
pub record IoLoop (P O A K : Type 0) : Type 0 where
  pub channels : Channels P O A K
  pub socket_state : SocketState
  pub status : Status
  pub frame_size : ℕ
  pub receive_buffer : Buffer
  pub send_buffer : Buffer
  pub serialized_frames : List Serialized
  pub half_closed : Bool
  pub first_connection : Bool
  pub backoff : List ℕ
  pub global_backoff : List ℕ

abbrev pub is_closing : ConnectionState → Bool
is_closing ConnectionState.closing = true
is_closing state = false

abbrev pub is_closed : ConnectionState → Bool
is_closed ConnectionState.closed = true
is_closed state = false

abbrev pub is_reconnecting : ConnectionState → Bool
is_reconnecting ConnectionState.reconnecting = true
is_reconnecting state = false

abbrev pub is_initial : Status → Bool
is_initial initial = true
is_initial status = false

-- The interval is half the negotiated timeout, which is in seconds.
heartbeat_of : {P K : Type 0} → ℕ → List (Effect P K)
heartbeat_of heartbeat =
    if heartbeat == 0
    then []
    else rpc (Command.start_heartbeat (heartbeat * 500 * millisecond)) ∷ []

module _ {P O A K : Type 0} where
  -- `frame_min_size` is that of the protocol.
  unfoldable pub new : ℕ → SocketState → List ℕ → Channels P O A K → IoLoop P O A K
  new frame_min_size socket_state backoff cs =
      let frame_size = max frame_min_size cs.configuration.frame_max in
      record {
        channels = cs;
        socket_state = socket_state;
        status = initial;
        frame_size = frame_size;
        receive_buffer = with_capacity (frames_storage * frame_size);
        send_buffer = with_capacity (frames_storage * frame_size);
        serialized_frames = [];
        half_closed = false;
        first_connection = true;
        backoff = backoff;
        global_backoff = backoff;
      }

  unfoldable pub reset : IoLoop P O A K → IoLoop P O A K
  reset l = record l {
    status = initial;
    receive_buffer = Buffer.reset l.receive_buffer;
    send_buffer = Buffer.reset l.send_buffer;
    socket_state = SocketState.reset l.socket_state;
  }

  set_up :
      Option (Buffer × Bool) → Option (Buffer × Bool) → ℕ → IoLoop P O A K → Option (IoLoop P O A K)
  set_up (some (receive, grown)) (some (send, again)) frame_size l = some (record l {
    frame_size = frame_size;
    receive_buffer = receive;
    send_buffer = send;
    status = connected;
    first_connection = false;
    global_backoff = l.backoff;
  })
  set_up _ _ frame_size l = none

  -- `none` is a panic of a buffer that grows.
  unfoldable pub finish_setup : IoLoop P O A K → Option (IoLoop P O A K × List (Effect P K))
  unfolding heartbeat_of set_up
  finish_setup l =
      let size = max l.frame_size l.channels.configuration.frame_max in
      let grown =
        set_up (grow (frames_storage * size) l.receive_buffer)
          (grow (frames_storage * size) l.send_buffer) size l in
      if is_connected l.channels.connection_status.state
      then (elim grown [
        | none ↦ none
        | some l' ↦ some (l', heartbeat_of l.channels.configuration.heartbeat)
      ])
      else some (l, [])

  -- With whether the loop is to run at all.
  unfoldable pub ensure_setup : IoLoop P O A K → Option (Bool × IoLoop P O A K × List (Effect P K))
  unfolding finish_setup
  ensure_setup l = elim l.status [
    | initial ↦ elim (finish_setup l) [
      | none ↦ none
      | some (l', effects) ↦ some (true, l', effects)
    ]
    | connected ↦ some (true, l, [])
    | stop ↦ some (false, l, [])
  ]

  unfoldable pub has_data : IoLoop P O A K → Bool
  has_data l =
      has_pending l.channels.frames
      || (ltb 0 l.send_buffer.available_data || not (is_empty l.serialized_frames))

  unfoldable pub can_write : IoLoop P O A K → Bool
  can_write l = l.socket_state.writable && (has_data l && not l.channels.connection_status.blocked)

  unfoldable pub can_read : IoLoop P O A K → Bool
  can_read l = l.socket_state.readable && ltb 0 (available_space l.receive_buffer)

  -- `internal_rpc_empty` says that no command is queued.
  unfoldable pub should_continue : Bool → IoLoop P O A K → Bool
  should_continue internal_rpc_empty l =
      let state = l.channels.connection_status.state in
      if is_error state then false else elim l.status [
        | initial ↦ not l.half_closed
        | stop ↦ false
        | connected ↦
            is_connected state
            || (is_closing state
                || (not internal_rpc_empty
                    || (has_pending l.channels.frames
                        || (not (killed l.channels.connection_killswitch)
                            || not (is_empty l.serialized_frames)))))
      ]

  unfoldable pub check_connection_state : IoLoop P O A K → IoLoop P O A K
  check_connection_state l =
      if is_closed l.channels.connection_status.state then record l { status = stop } else l

  gives_up : Error K → IoLoop P O A K → IoLoop P O A K × List (Effect P K)
  gives_up e l =
      let (resolver, frames) = connection_resolver 0 l.channels.frames in
      let channels : Channels P O A K = record l.channels { frames = frames } in
      (
        record l { channels = channels; status = stop; serialized_frames = [] },
        elim resolver [ none ↦ [] | some promise ↦ rejected promise e ∷ [] ]
            ++ (rpc (Command.set_connection_error e)
                ∷ map of_frames (clear_serialized_frames e l.serialized_frames)),
      )

  -- The error is what it fails with.
  unfoldable pub critical_error : Error K → IoLoop P O A K → IoLoop P O A K × List (Effect P K)
  unfolding gives_up
  critical_error e l =
      let switch = l.channels.connection_killswitch in
      let channels : Channels P O A K = record l.channels {
        connection_killswitch = if is_io_error e then (kill switch).0 else switch;
      } in
      let l' : IoLoop P O A K = record l { channels = channels } in
      if can_recover l.channels.recovery_config e
      then (l', rpc (Command.init_connection_recovery e) ∷ [])
      else gives_up e l'

  -- Whether to stop reading and enter the recovery; otherwise the connection is aborted.
  unfoldable pub handle_half_closed_connection :
      (Error K → IoError) → Error K → IoLoop P O A K → Result (Error K) Bool × IoLoop P O A K
  handle_half_closed_connection view aborted l =
      let (socket, failed) = SocketState.handle_io_result view (some aborted) l.socket_state in
      let res : Result (Error K) Bool = elim failed [ none ↦ ok false | some e ↦ err e ] in
      if is_reconnecting l.channels.connection_status.state
        || (is_initial l.status || killed l.channels.connection_killswitch)
      then (ok true, l)
      else (res, record l { socket_state = socket })
