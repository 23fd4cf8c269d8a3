-- ===== src/IoLoop/Stream/Start.antt =====
-- src/io_loop.rs, the thread of `start`: connection after connection, until the loop ends. The stream's
-- state holds the connections too: `connect` makes the next one, with the retries that it takes. The
-- delay before it is only told.
use lapin.Base.{
  ℕ, zero, suc, false, not, ◌&&◌, ◌||◌, Option, none, some, [], ◌∷◌, map, length, ℕ_discrete,
  is_some, if◌then◌else◌,
}
use lapin.Base.Dict
use lapin.Acker.{Result, ok, err}
use lapin.Error.{Error, ErrorKind, from_kind}
use lapin.ConnectionStatus.{ConnectionState, poison}
use lapin.Frames.{Frames}
use lapin.Frames.Replies.{retry_connection_header, clear_connection_steps}
use lapin.SocketState.{SocketEvent}
use lapin.Channel.{of_frames, rpc}
use lapin.Command
use lapin.Channels.{Channels, set_connection_error, by}
use lapin.IoLoop.{clear_serialized_frames}
use lapin.IoLoop.Control.{IoLoop, is_initial, is_reconnecting, reset}
use lapin.IoLoop.Stream.{Environment, Library, Io, Outcome, in_loop, tell}
use lapin.IoLoop.Stream.Run.{connected_loop}

-- What follows a connection: the end of the thread, with its result, or another connection after a
-- delay.
pub data After (S P O A K : Type 0) : Type 0 where
  ends : Io S P O A K → Result (Error K) (Unit {0}) → After S P O A K
  again : Io S P O A K → ℕ → After S P O A K

unfoldable pub error_of : {K : Type 0} → Result (Error K) (Unit {0}) → Option (Error K)
error_of (ok t) = none
error_of (err e) = some e

unfoldable pub or_else : {K : Type 0} → Error K → Option (Error K) → Error K
or_else e none = e
or_else e (some first) = first

-- How many replies channel 0 expects; one more is fuel enough.
unfoldable pub waiting : {P K : Type 0} → Frames P (Error K) → ℕ
waiting frames = elim (Dict.get ℕ_discrete 0 frames.expected_replies) [
  | none ↦ 0
  | some replies ↦ length replies
]

module _ {S P O A K : Type 0} where
  -- The serialized frames are rejected.
  unfoldable pub unsent : Error K → Io S P O A K → Io S P O A K
  unsent e io =
      tell (by 0 (map of_frames (clear_serialized_frames e io.loop.serialized_frames)))
        (in_loop (λ l. record l { serialized_frames = [] }) io)

  unfoldable pub in_error : Error K → Io S P O A K → Io S P O A K
  in_error e io =
      let (channels, effects) = set_connection_error e io.loop.channels in
      tell effects (in_loop (λ l. record l { channels = channels }) io)

  -- The poison of the frames, or the error, or that the connection is closed.
  unfoldable pub why_unsent : Result (Error K) (Unit {0}) → Io S P O A K → Error K
  unfolding or_else error_of
  why_unsent res io =
      or_else
        (or_else (from_kind (ErrorKind.invalid_connection_state ConnectionState.closed))
          (error_of res))
        io.loop.channels.frames.poison

  -- A connection in place of the one that ended.
  unfoldable pub reconnect : Error K → Result (Error K) (Unit {0}) → Io S P O A K → After S P O A K
  unfolding in_error or_else error_of
  reconnect aborted res io = elim io.loop.global_backoff [
    | [] ↦ let error = or_else aborted (error_of res) in ends (in_error error io) (err error)
    | throttle ∷ delays ↦
        let l : IoLoop P O A K = reset (record io.loop { global_backoff = delays }) in
        let io' : Io S P O A K = record io { loop = l } in
        again
          (if l.first_connection
            then io'
            else tell ((0, rpc Command.start_channels_recovery) ∷ []) io')
          throttle
  ]

  unfoldable pub settled : Error K → Result (Error K) (Unit {0}) → Io S P O A K → After S P O A K
  unfolding why_unsent unsent reconnect
  settled aborted res io =
      let io' = unsent (why_unsent res io) io in
      if is_initial io.loop.status || is_reconnecting io.loop.channels.connection_status.state
      then reconnect aborted res io'
      else ends io' res

  unfoldable pub after_connection :
      Library P O A K → Result (Error K) (Unit {0}) → Io S P O A K → After S P O A K
  unfolding settled error_of in_error unsent
  after_connection lib res io =
      let l = io.loop in
      let (retried, frames) = retry_connection_header lib.frame_api l.channels.frames in
      let channels : Channels P O A K = record l.channels { frames = frames } in
      if l.first_connection
        && (is_initial l.status && (l.half_closed && not (is_some (error_of res))))
      then (if retried
          then settled lib.aborted (err lib.aborted)
              (in_loop (λ m. record m { channels = channels }) io)
          else ends
              (unsent lib.aborted
                (in_error lib.aborted (in_loop (λ m. record m { channels = channels }) io)))
              (err lib.aborted))
      else settled lib.aborted res io

  -- The attempts at a connection have failed: the steps of the handshake that wait fail with it.
  unfoldable pub connect_failed : Error K → Io S P O A K → Outcome S P O A K (Unit {0})
  unfolding waiting
  connect_failed e io =
      let cs = io.loop.channels in
      elim (clear_connection_steps (suc (waiting cs.frames)) e cs.frames) [
        | none ↦ none
        | some (frames, effects) ↦
            let channels : Channels P O A K = record cs {
              connection_status = poison e cs.connection_status;
              frames = frames;
            } in
            some (
              tell (by 0 (map of_frames effects))
                  (in_loop (λ l. record l { channels = channels }) io),
              err e,
            )
      ]

  module _ (env : Environment S K) (lib : Library P O A K) (next_event : S → SocketEvent × S)
      (connect : S → Result (Error K) S) (work turns : ℕ) where
    -- On fuel for the connections; `work` and `turns` are that of each.
    unfoldable pub start : ℕ → Io S P O A K → Outcome S P O A K (Unit {0})
    unfolding connect_failed after_connection connected_loop
    start zero io = none
    start (suc fuel) io = elim (connect io.stream) [
      | err e ↦ connect_failed e io
      | ok stream ↦
          let opened =
            in_loop (λ l. record l { half_closed = false }) (record io { stream = stream }) in
          elim (connected_loop env lib next_event work turns (ok tt) opened) [
            | none ↦ none
            | some (io', res) ↦ elim (after_connection lib res io') [
              | ends ended res' ↦ some (ended, res')
              | again ended throttle ↦ start fuel ended
            ]
          ]
    ]
