-- ===== src/Connection/Opening.antt =====
-- src/connection.rs, `start`, and src/io_loop.rs, where no connection can be made.
use lapin.Base.{◌≡◌, refl, none, some, [], ◌∷◌, ◌++◌, arith, ℕ_discrete}
use lapin.Base.Dict
use lapin.Base.Dict.{get-insert}
use lapin.Frame.{
  PromiseId, FrameApi, ExpectedReply, Reply, ConnectionStep, rejected, into_connection_resolver,
}
use lapin.Acker.{ok, err}
use lapin.Error.{Error}
use lapin.ConnectionStatus.{set_connecting, poison}
use lapin.Frames.{Frames, push, check_poison}
use lapin.Frames.Replies.Steps.{clear_connection_steps_lem}
use lapin.Channel.{of_frames}
use lapin.Channels.{Channels}
use lapin.Connection.{start, send_frame}
use lapin.IoLoop.Stream.{Io, tell, in_loop}
use lapin.IoLoop.Stream.Start.{connect_failed, waiting}

abbrev pub header_step : {P : Type 0} → PromiseId → P → ExpectedReply P
header_step promise connection = record {
  reply = Reply.connection_step (ConnectionStep.protocol_header promise connection);
  canceler = promise;
}

module _ {P O A K : Type 0} (api : FrameApi P) (promise : PromiseId) (connection : P)
    (cs : Channels P O A K) where
  pushed :
      cs.channel0.id ≡ 0
      → check_poison 0 cs.frames ≡ none
      → cs.connection_status.poison ≡ none
      → Dict.get ℕ_discrete 0 cs.frames.expected_replies ≡ none
      → Dict.get ℕ_discrete 0 (start api promise connection cs).0.frames.expected_replies
        ≡ some (header_step promise connection ∷ [])
  unfolding start send_frame push lapin.Frames.expect lapin.Frames.replies_of set_connecting
      lapin.ConnectionStatus.as_result
  pushed i c p e = ground (
    arith,
    get-insert ℕ_discrete 0 0 (header_step promise connection ∷ []) cs.frames.expected_replies,
  )

  -- `start` on an unpoisoned connection that expects no reply on channel 0 awaits its promise; if
  -- then no connection can be made, that promise is rejected with the error, nothing else is told,
  -- and the status is poisoned with the error: a further `start` fails with it, sends nothing, and
  -- takes the poison, so that one after it does not fail for it.
  pub connect_failed-start :
      {S : Type 0} (io : Io S P O A K) (e : Error K)
      → cs.channel0.id ≡ 0
      → check_poison 0 cs.frames ≡ none
      → cs.connection_status.poison ≡ none
      → Dict.get ℕ_discrete 0 cs.frames.expected_replies ≡ none
      → io.loop.channels ≡ (start api promise connection cs).0
      → ((start api promise connection cs).2 ≡ ok promise)
        × ((io' : Io S P O A K) × (connect_failed e io ≡ some (io', err e))
            × (io'.effects ≡ io.effects ++ (0, of_frames (rejected promise e)) ∷ [])
            × ((start api promise connection io'.loop.channels).2 ≡ err e)
            × ((start api promise connection io'.loop.channels).0.frames ≡ io'.loop.channels.frames)
            × ((start api promise connection io'.loop.channels).0.connection_status.poison ≡ none))
  unfolding connect_failed waiting start set_connecting lapin.ConnectionStatus.as_result poison
      into_connection_resolver
  connect_failed-start io e i c p none_expected l =
      let replies = pushed i c p none_expected in
      let cleared =
        clear_connection_steps_lem 2 e (start api promise connection cs).0.frames
          (header_step promise connection ∷ []) replies (omega arith) in
      let channels : Channels P O A K = record (start api promise connection cs).0 {
        connection_status = poison e (start api promise connection cs).0.connection_status;
        frames = cleared.0;
      } in
      (
        ground (arith, p),
        (
          tell ((0, of_frames (rejected promise e)) ∷ [])
              (in_loop (λ m. record m { channels = channels }) io),
          ground (arith, l, replies, cleared.1),
          refl,
          ground arith,
          ground arith,
          ground arith,
        ),
      )
