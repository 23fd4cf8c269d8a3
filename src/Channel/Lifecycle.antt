-- ===== src/Channel/Lifecycle.antt =====
-- src/channel.rs: the handlers that open, close, block and unblock, and what the source does right
-- before and after it sends a close. `try_from`, which makes an AMQP error of a close's code, is the
-- crate's: its result is given, `none` for a code that is no error.
use lapin.Base.{String, Bool, Option, none, some, List, [], ◌∷◌, ◌++◌, map, if◌then◌else◌}
use lapin.Frame.{PromiseId, Reply}
use lapin.Acker.{ok}
use lapin.Error.{
  Error, from_kind, invalid_channel_state, invalid_connection_state, protocol_error, can_recover,
  is_amqp_error,
}
use lapin.Error
use lapin.ChannelStatus.{set_send_flow, finalize_connection, set_confirm}
use lapin.ConnectionStatus
use lapin.Frames.Replies.{connection_resolver}
use lapin.Frames.Replies
use lapin.Frames.Discard.{poison_channel}
use lapin.Command.{
  channel_flow_ok, channel_close_ok, finish_connection_shutdown, init_connection_recovery,
  send_connection_close_ok, set_connection_closed, set_connection_error, spawn, connection_blocked,
  connection_unblocked, send_flow, inits_connection_shutdown,
}
use lapin.Command
use lapin.Channel.{
  Channel, Effect, of_frames, of_status, rpc, event, resolved, wake, Done, set_closing, set_closed,
}

-- The contexts of the errors of a channel that closes.
abbrev unexpected_close_ok : String
unexpected_close_ok = "unexpected channel.close-ok received"

abbrev close_ok_received : String
close_ok_received = "channel.close-ok received"

abbrev close_ok_sent : String
close_ok_sent = "channel.close-ok sent"

module _ {P O A K : Type 0} where
  -- A channel in confirm mode is not ready before `confirm.select-ok`.
  unfoldable pub on_channel_open_ok_received : PromiseId → Channel P O A K → Done P O A K
  on_channel_open_ok_received resolver ch =
      if ch.status.confirm
      then (ch, resolved resolver ∷ [], ok tt)
      else let (status, effects) = finalize_connection ch.status in
        (record ch { status = status }, map of_status effects ++ resolved resolver ∷ [], ok tt)

  unfoldable pub on_confirm_select_ok_received : Channel P O A K → Done P O A K
  on_confirm_select_ok_received ch =
      let (status, effects) = set_confirm ch.status in
      (record ch { status = status }, map of_status effects, ok tt)

  unfoldable pub on_channel_flow_received : Bool → Channel P O A K → Done P O A K
  on_channel_flow_received active ch = (
    record ch { status = set_send_flow active ch.status },
    event (send_flow active) ∷ rpc (spawn (channel_flow_ok active)) ∷ [],
    ok tt,
  )

  unfoldable pub on_channel_close_received : Option K → Channel P O A K → Done P O A K
  on_channel_close_received amqp_error ch =
      let error : Option (Error K) = elim amqp_error [
        | none ↦ none
        | some e ↦ some (from_kind (protocol_error e))
      ] in
      let (ch', effects) = set_closing error ch in
      (ch', effects ++ rpc (spawn (channel_close_ok error)) ∷ [], ok tt)

  unfoldable pub on_channel_close_ok_received : Channel P O A K → Done P O A K
  on_channel_close_ok_received ch =
      let (ch', effects) =
        set_closed (from_kind (invalid_channel_state Error.closed close_ok_received)) ch in
      (ch', effects, ok tt)

  unfoldable pub before_channel_close : Channel P O A K → Channel P O A K × List (Effect P K)
  before_channel_close ch = set_closing none ch

  unfoldable pub poison : Error K → Channel P O A K → Channel P O A K
  poison e ch = record ch { frames = poison_channel ch.id e ch.frames }

  unfoldable pub on_channel_close_ok_sent :
      Option (Error K) → Channel P O A K → Channel P O A K × List (Effect P K)
  on_channel_close_ok_sent error ch =
      let sent : Error K = from_kind (invalid_channel_state Error.closing close_ok_sent) in
      let e : Error K = elim error [ none ↦ sent | some given ↦ given ] in
      let (ch', effects) = set_closed e (poison e ch) in
      (ch', effects ++ elim error [ none ↦ [] | some given ↦ event (Command.error given) ∷ [] ])

  unfoldable pub next_expected_close_ok_reply :
      Channel P O A K → Option (Reply P) × Channel P O A K × List (Effect P K)
  next_expected_close_ok_reply ch =
      let (reply, frames, effects) =
        Replies.next_expected_close_ok_reply ch.id
          (from_kind (invalid_channel_state Error.closed unexpected_close_ok)) ch.frames in
      (reply, record ch { frames = frames }, map of_frames effects)

  -- The connection recovers, or it shuts down with the resolver of a handshake in progress; a
  -- `connection.close-ok` goes out either way.
  unfoldable pub on_connection_close_received : Option K → Channel P O A K → Done P O A K
  on_connection_close_received amqp_error ch =
      let error : Error K = elim amqp_error [
        | none ↦ from_kind (invalid_connection_state ConnectionStatus.closed)
        | some e ↦ from_kind (protocol_error e)
      ] in
      if can_recover ch.recovery_config error
      then (
        ch,
        rpc (init_connection_recovery error) ∷ rpc (send_connection_close_ok error) ∷ [],
        ok tt,
      )
      else let (resolver, frames) = connection_resolver ch.id ch.frames in
        (
          record ch { frames = frames },
          map rpc (inits_connection_shutdown error resolver)
              ++ rpc (send_connection_close_ok error) ∷ [],
          ok tt,
        )

  unfoldable pub on_connection_close_ok_received : Channel P O A K → Done P O A K
  on_connection_close_ok_received ch = (
    ch,
    rpc (set_connection_closed (from_kind (invalid_connection_state ConnectionStatus.closed))) ∷ [],
    ok tt,
  )

  -- A protocol error is an error of the connection; any other end is a close.
  unfoldable pub on_connection_close_ok_sent : Error K → Channel P O A K → List (Effect P K)
  on_connection_close_ok_sent e ch =
      rpc finish_connection_shutdown
      ∷ (if can_recover ch.recovery_config e
          then []
          else if is_amqp_error e
          then rpc (set_connection_error e) ∷ []
          else rpc (set_connection_closed e) ∷ [])

  unfoldable pub on_connection_blocked_received : String → Channel P O A K → Done P O A K
  on_connection_blocked_received reason ch = (
    record ch { connection_status = ConnectionStatus.block ch.connection_status },
    event (connection_blocked reason) ∷ [],
    ok tt,
  )

  unfoldable pub on_connection_unblocked_received : Channel P O A K → Done P O A K
  on_connection_unblocked_received ch = (
    record ch { connection_status = ConnectionStatus.unblock ch.connection_status },
    event connection_unblocked ∷ wake ∷ [],
    ok tt,
  )
