-- ===== src/IoLoop/Stream.antt =====
-- src/io_loop.rs: how the loop writes to the socket, reads from it, and handles the frames that it
-- reads. The socket, the clock and the queue of the RPC task are the environment; the generator and
-- the parser of frames are those of the crate amq_protocol. `none` is a panic, or fuel that ran out.
pub mod Reads
pub mod Run
pub mod Start
pub mod Ended
pub mod Decoded
pub mod Handled
pub mod Chunked
pub mod Pieces
use lapin.Base.{
  ℕ, zero, suc, Bool, true, false, not, ◌&&◌, Option, none, some, List, [], ◌∷◌, ◌++◌, map, length,
  ltb, ◌==◌, if◌then◌else◌,
}
use lapin.Frame.{FrameApi, FrameEntry, AmqpFrame, AmqpClass}
use lapin.Acker.{Result, ok, err}
use lapin.Error.{
  Error, ErrorKind, from_kind, parsing_error, serialisation_error, invalid_connection_state,
}
use lapin.ConnectionStatus.{ConnectionState}
use lapin.Heartbeat.{Heartbeat, update_last_read, update_last_write}
use lapin.Buffer.{Buffer, available_space, fill, consume, slices}
use lapin.Buffer.Bytes.{poll_read_from}
use lapin.Frames.Order.{pending as pending_frames}
use lapin.Parsing.{ParsingContext, parsing_context, offset}
use lapin.SocketState.{Poll, ready, pending, IoError, handle_read_poll, handle_write_poll}
use lapin.SocketState
use lapin.Command
use lapin.Channel.{Protocol, Channel, Effect, Done, of_frames, rpc, report_protocol_violation}
use lapin.Channel
use lapin.Channels.{Channels, Effects, by, ask, flow}
use lapin.Channels.Routed.{handle_frame}
use lapin.IoLoop.{account_write}
use lapin.IoLoop.Control.{
  IoLoop, can_read, can_write, critical_error, handle_half_closed_connection,
}
use lapin.IoLoop.Serialize.{Generated, Sending, serialize}

-- What the parser of frames makes of the bytes: the rest and a frame.
pub data Parsed (P K : Type 0) : Type 0 where
  frame : ParsingContext → AmqpFrame P → Parsed P K
  incomplete : Parsed P K
  malformed : K → Parsed P K

-- The socket and what else is outside, in a state `S`. A writer is given the slices of the buffer, a
-- reader the room in it; their errors are as `Error::io` makes them.
pub record Environment (S K : Type 0) : Type 0 where
  pub poll_flush : S → Poll (Result (Error K) (Unit {0})) × S
  pub poll_write : List ℕ × List ℕ → S → Poll (Result (Error K) ℕ) × S
  pub poll_read : ℕ → S → Poll (Result (Error K) (List ℕ)) × S
  pub rpc_is_empty : S → Bool
  pub now : S → ℕ

-- What the loop uses of other crates and modules.
pub record Library (P O A K : Type 0) : Type 0 where
  pub frame_api : FrameApi P
  pub gen_frame : FrameEntry P → Buffer → Generated K
  pub parse_frame : ParsingContext → Parsed P K
  pub protocol : Protocol K
  pub receive_method : AmqpClass P → Channel P O A K → Done P O A K
  pub version_of : P → K
  pub view : Error K → IoError
  pub aborted : Error K
  pub memory_address : ℕ

-- The loop with its stream, its heartbeat, and what it has done outside so far.
pub record Io (S P O A K : Type 0) : Type 0 where
  pub loop : IoLoop P O A K
  pub stream : S
  pub heartbeat : Heartbeat
  pub effects : Effects P K

abbrev pub Outcome : Type 0 → Type 0 → Type 0 → Type 0 → Type 0 → Type 0 → Type 0
Outcome S P O A K T = Option (Io S P O A K × Result (Error K) T)

module _ {S P O A K : Type 0} where
  -- `?`.
  abbrev pub and_then :
      {T U : Type 0}
      → Outcome S P O A K T
      → (T → Io S P O A K → Outcome S P O A K U)
      → Outcome S P O A K U
  and_then none f = none
  and_then (some (io, err e)) f = some (io, err e)
  and_then (some (io, ok x)) f = f x io

  abbrev pub in_loop : (IoLoop P O A K → IoLoop P O A K) → Io S P O A K → Io S P O A K
  in_loop f io = record io { loop = f io.loop }

  abbrev pub tell : Effects P K → Io S P O A K → Io S P O A K
  tell effects io = record io { effects = io.effects ++ effects }

  -- The error is critical: the loop fails with it.
  unfoldable pub fail_with : {T : Type 0} → Error K → Io S P O A K → Outcome S P O A K T
  fail_with e io =
      let (l, effects) = critical_error e io.loop in
      some (tell (by 0 effects) (record io { loop = l }), err e)

  unfoldable pub handle_io_result :
      {T : Type 0} → Library P O A K → Outcome S P O A K T → Outcome S P O A K (Unit {0})
  unfolding fail_with
  handle_io_result lib none = none
  handle_io_result lib (some (io, ok x)) = some (io, ok tt)
  handle_io_result lib (some (io, err e)) =
      let (socket, failed) = SocketState.handle_io_result lib.view (some e) io.loop.socket_state in
      let io' = in_loop (λ l. record l { socket_state = socket }) io in
      elim failed [ none ↦ some (io', ok tt) | some e' ↦ fail_with e' io' ]

  module _ (env : Environment S K) (lib : Library P O A K) where
    unfoldable pub flush : Io S P O A K → Outcome S P O A K (Unit {0})
    flush io =
        let (polled, stream) = env.poll_flush io.stream in
        let io' : Io S P O A K = record io { stream = stream } in
        elim polled [
          | ready (err e) ↦ some (io', err e)
          | ready (ok t) ↦ some (io', ok tt)
          | pending ↦ some (
            in_loop (λ l. record l { socket_state = record l.socket_state { writable = false } })
                io',
            ok tt,
          )
        ]

    unfoldable pub attempt_flush : Io S P O A K → Outcome S P O A K (Unit {0})
    unfolding flush handle_io_result
    attempt_flush io = handle_io_result lib (flush io)

    -- One more than the frames that are pending is fuel enough.
    serialize_frames : Io S P O A K → Outcome S P O A K (Unit {0})
    unfolding fail_with
    serialize_frames io =
        let l = io.loop in
        let before : Sending P (Error K) = record {
          frames = l.channels.frames;
          send_buffer = l.send_buffer;
          serialized_frames = l.serialized_frames;
        } in
        elim (serialize lib.frame_api lib.gen_frame (flow l.channels)
          (suc (length (pending_frames l.channels.frames))) before) [
            | none ↦ none
            | some (s, failed) ↦
                let channels : Channels P O A K = record l.channels { frames = s.frames } in
                let io' : Io S P O A K = record io {
                  loop = record l {
                    channels = channels;
                    send_buffer = s.send_buffer;
                    serialized_frames = s.serialized_frames;
                  };
                } in
                elim failed [
                  | none ↦ some (io', ok tt)
                  | some e ↦ fail_with (from_kind (serialisation_error e)) io'
                ]
          ]

    -- The buffer is not polled where it has no data.
    write_buffer : Io S P O A K → Poll (Result (Error K) ℕ) × S
    write_buffer io =
        if io.loop.send_buffer.available_data == 0
        then (ready (ok 0), io.stream)
        else env.poll_write (slices io.loop.send_buffer) io.stream

    wrote : ℕ → Io S P O A K → Outcome S P O A K (Unit {0})
    unfolding flush
    wrote zero io = some (
      in_loop (λ l. record l { socket_state = record l.socket_state { writable = false } }) io,
      ok tt,
    )
    wrote (suc n) io = elim (consume (suc n) io.loop.send_buffer) [
      | none ↦ none
      | some (sent, count) ↦
          let (left, effects, unexpected) = account_write (suc n) io.loop.serialized_frames in
          let io' : Io S P O A K = record io {
            loop = record io.loop { send_buffer = sent; serialized_frames = left };
            heartbeat = update_last_write (env.now io.stream) io.heartbeat;
          } in
          flush (tell (by 0 (map of_frames effects)) io')
    ]

    unfoldable pub write_to_stream : Io S P O A K → Outcome S P O A K (Unit {0})
    unfolding flush serialize_frames write_buffer wrote
    write_to_stream io = and_then (flush io) (λ t flushed.
        and_then (serialize_frames flushed) (λ t filled.
          let (polled, stream) = write_buffer filled in
          let io' : Io S P O A K = record filled { stream = stream } in
          elim polled [
            | ready (err e) ↦ some (io', err e)
            | ready (ok size) ↦ wrote size io'
            | pending ↦ wrote 0 io'
          ]))

    unfoldable pub write : ℕ → Io S P O A K → Outcome S P O A K (Unit {0})
    unfolding write_to_stream handle_io_result
    write zero io = none
    write (suc fuel) io =
        if can_write io.loop
        then and_then (handle_io_result lib (write_to_stream io)) (λ t io'. write fuel io')
        else some (io, ok tt)
