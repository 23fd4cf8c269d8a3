-- ===== src/IoLoop/Stream/Reads.antt =====
-- src/io_loop.rs: the loop reads from the socket, parses frames and hands them to the channels.
use lapin.Base.{
  ℕ, zero, suc, Bool, true, false, not, ◌&&◌, Option, none, some, [], ◌∷◌, ltb, ◌==◌, if◌then◌else◌,
}
use lapin.Frame.{AmqpFrame}
use lapin.Acker.{Result, ok, err}
use lapin.Error.{Error, ErrorKind, from_kind, parsing_error}
use lapin.ConnectionStatus.{ConnectionState}
use lapin.Heartbeat.{update_last_read}
use lapin.Buffer.{available_space, fill, consume}
use lapin.Buffer.Bytes.{poll_read_from}
use lapin.Parsing.{parsing_context, offset}
use lapin.SocketState.{Poll, ready, pending}
use lapin.Command
use lapin.Channel.{Protocol, Channel, Effect, Done, of_frames, rpc, report_protocol_violation}
use lapin.Channel
use lapin.Channels.{Channels, Effects, ask}
use lapin.Channels.Routed.{handle_frame}
use lapin.IoLoop.Control.{can_read, handle_half_closed_connection}
use lapin.IoLoop.Stream.{
  frame, incomplete, malformed, Environment, Library, Io, Outcome, and_then, in_loop, tell,
  fail_with, handle_io_result,
}

module _ {S P O A K : Type 0} where
  stops : Outcome S P O A K Bool → Bool
  stops none = false
  stops (some (io, ok stop)) = stop
  stops (some (io, err e)) = false

  -- The error of a channel is also sent to the RPC task.
  unfoldable pub delivered :
      Channels P O A K × Effects P K × Result (Error K) (Unit {0})
      → Io S P O A K
      → Outcome S P O A K (Unit {0})
  delivered (channels, effects, ok t) io =
      some (tell effects (in_loop (λ l. record l { channels = channels }) io), ok tt)
  delivered (channels, effects, err e) io =
      let io' = tell effects (in_loop (λ l. record l { channels = channels }) io) in
      some (tell ((0, rpc (Command.set_connection_error e)) ∷ []) io', err e)

  module _ (lib : Library P O A K) where
    unfoldable pub too_large : Io S P O A K → Outcome S P O A K (Option (AmqpFrame P))
    unfolding fail_with
    too_large io =
        let (channels, effects, res) =
          ask 0 (report_protocol_violation (lib.protocol.violation Channel.frame_error) 0 0)
            io.loop.channels in
        let io' = tell effects (in_loop (λ l. record l { channels = channels }) io) in
        elim res [ ok t ↦ some (io', ok none) | err e ↦ fail_with e io' ]

    -- A frame that is too large is an error; after a violation that would be none, as is never the
    -- case, it would be handled.
    unfoldable pub parse : Io S P O A K → Outcome S P O A K (Option (AmqpFrame P))
    unfolding fail_with too_large
    parse io = elim (lib.parse_frame (parsing_context io.loop.receive_buffer)) [
      | frame rest f ↦
          let consumed = offset lib.memory_address rest io.loop.receive_buffer in
          let frame_max = io.loop.channels.configuration.frame_max in
          and_then
            (if ltb 0 frame_max && ltb frame_max consumed then too_large io else some (io, ok none))
            (λ t io'. elim (consume consumed io'.loop.receive_buffer) [
              | none ↦ none
              | some (b, count) ↦
                  some (in_loop (λ l. record l { receive_buffer = b }) io', ok (some f))
            ])
      | incomplete ↦ some (io, ok none)
      | malformed e ↦ fail_with (from_kind (parsing_error e)) io
    ]

    unfoldable pub deliver : AmqpFrame P → Io S P O A K → Outcome S P O A K (Unit {0})
    unfolding delivered
    deliver f io =
        delivered (handle_frame lib.protocol lib.receive_method lib.version_of f io.loop.channels)
          io

    -- With whether any frame was handled, before or now.
    unfoldable pub handle_more : ℕ → Bool → Io S P O A K → Outcome S P O A K Bool
    unfolding parse deliver
    handle_more zero did io = none
    handle_more (suc fuel) did io =
        if ltb 0 io.loop.receive_buffer.available_data
        then and_then (parse io) (λ parsed io'. elim parsed [
          | none ↦ some (io', ok did)
          | some f ↦ and_then (deliver f io') (λ t done. handle_more fuel true done)
        ])
        else some (io, ok did)

    -- A frame has a byte or more, so one more than the bytes is fuel enough.
    unfoldable pub handle_frames : Io S P O A K → Outcome S P O A K Bool
    unfolding handle_more
    handle_frames io = handle_more (suc io.loop.receive_buffer.available_data) false io

  module _ (env : Environment S K) (lib : Library P O A K) where
    half_closed : Bool → Io S P O A K → Outcome S P O A K Bool
    half_closed first io =
        let (res, l) = handle_half_closed_connection lib.view lib.aborted io.loop in
        some (record io { loop = l }, res)

    -- Nothing was read: the peer has closed its half.
    read_none : Io S P O A K → Outcome S P O A K Bool
    unfolding half_closed handle_frames
    read_none io =
        if io.loop.half_closed
        then half_closed false io
        else and_then (handle_frames lib (in_loop (λ l. record l { half_closed = true }) io))
            (λ did io'.
              if not did && env.rpc_is_empty io'.stream
              then half_closed true io'
              else some (io', ok false))

    read_some : ℕ → Io S P O A K → Outcome S P O A K Bool
    read_some size io = elim (fill size io.loop.receive_buffer) [
      | none ↦ none
      | some (b, count) ↦ some (
        record io {
          loop = record io.loop { receive_buffer = b };
          heartbeat = update_last_read (env.now io.stream) io.heartbeat;
        },
        ok false,
      )
    ]

    -- The buffer does not poll the reader where it has no room.
    read_buffer : Io S P O A K → Poll (Result (Error K) ℕ) × Io S P O A K
    read_buffer io =
        let b = io.loop.receive_buffer in
        let (polled, stream) = env.poll_read (available_space b) io.stream in
        if available_space b == 0 then (ready (ok 0), io) else (elim polled [
          | ready (err e) ↦ (ready (err e), record io { stream = stream })
          | ready (ok given) ↦
              let (b', size) = poll_read_from given b in
              (
                ready (ok size),
                record io { stream = stream; loop = record io.loop { receive_buffer = b' } },
              )
          | pending ↦ (pending, record io { stream = stream })
        ])

    open_read : Io S P O A K → Outcome S P O A K Bool
    unfolding read_buffer read_none read_some
    open_read io =
        let (polled, io') = read_buffer io in
        elim polled [
          | ready (err e) ↦ some (io', err e)
          | ready (ok zero) ↦ read_none io'
          | ready (ok (suc n)) ↦ read_some (suc n) io'
          | pending ↦ some (
            in_loop (λ l. record l { socket_state = record l.socket_state { readable = false } })
                io',
            ok false,
          )
        ]

    -- With whether to stop reading.
    unfoldable pub read_from_stream : Io S P O A K → Outcome S P O A K Bool
    unfolding open_read
    read_from_stream io = elim io.loop.channels.connection_status.state [
      | ConnectionState.closed ↦ some (io, ok true)
      | ConnectionState.error ↦
          some (io, err (from_kind (ErrorKind.invalid_connection_state ConnectionState.error)))
      | _ ↦ open_read io
    ]

    -- The loop over `read_from_stream`, on fuel.
    unfoldable pub read : ℕ → Io S P O A K → Outcome S P O A K (Unit {0})
    unfolding read_from_stream handle_io_result stops
    read zero io = none
    read (suc fuel) io =
        let res = read_from_stream io in
        if can_read io.loop
        then and_then (handle_io_result lib res)
            (λ t io'. if stops res then some (io', ok tt) else read fuel io')
        else some (io, ok tt)
