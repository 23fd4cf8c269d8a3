-- ===== src/Channels.antt =====
-- src/channels.rs: the channels of a connection, and what befalls them all. Their frames, the status of
-- the connection and its configuration are shared, and stand here once: a channel is lent them for an
-- operation, so its own copies are out of date in between. What is done outside is told by the channel
-- that does it, 0 for the connection. The order of the map is the list's.
pub mod Ended
pub mod Recovering
pub mod Routed
use lapin.Base.{
  ℕ, zero, suc, Bool, true, false, not, ◌&&◌, Option, none, some, List, [], ◌∷◌, ◌++◌, map, ◌==◌,
  is_some, ℕ_discrete, if◌then◌else◌,
}
use lapin.Base.Dict
use lapin.Frame.{ChannelId, PromiseId, AmqpFrame, AmqpClass, FrameApi}
use lapin.Frame
use lapin.Acker.{Result, ok, err, KillSwitch, kill}
use lapin.Error.{
  Error, from_kind, invalid_channel, invalid_protocol_version, channels_limit_reached, can_recover,
}
use lapin.ChannelStatus.{Store}
use lapin.ChannelStatus
use lapin.ConnectionStatus.{ConnectionStatus, ConnectionState, set_state, set_reconnecting}
use lapin.ConnectionStatus
use lapin.Frames.{Frames}
use lapin.Frames.Replies.{connection_resolver, clear_expected_replies, clear_connection_steps}
use lapin.Frames.Discard.{drop_pending}
use lapin.Recovery
use lapin.Sequence.{IdSequence}
use lapin.ChannelIds.{create_id}
use lapin.Tuning.{NegotiatedConfig}
use lapin.Topology.{ExchangeDefinition, QueueDefinition, exchanges_topology, queues_topology}
use lapin.Consumer.{Consumer}
use lapin.Command
use lapin.Channel.{
  Violation, Protocol, Channel, Effect, of_frames, event, rejected, Done, set_closing, set_closed,
  set_connection_error_here, report_protocol_violation,
}
use lapin.Channel

pub record Channels (P O A K : Type 0) : Type 0 where
  pub channels : List (ChannelId × Channel P O A K)
  pub channel0 : Channel P O A K
  pub channel_id : IdSequence
  pub configuration : NegotiatedConfig
  pub connection_status : ConnectionStatus (Error K)
  pub frames : Frames P (Error K)
  pub connection_killswitch : KillSwitch
  pub recovery_config : Bool
  pub store : Store

-- What the channels do outside, by the channel.
abbrev pub Effects : Type 0 → Type 0 → Type 0
Effects P K = List (ChannelId × Effect P K)

abbrev pub by : {P K : Type 0} → ChannelId → List (Effect P K) → Effects P K
by id effects = map (λ e. (id, e)) effects

abbrev pub is_error : ConnectionState → Bool
is_error ConnectionState.error = true
is_error state = false

-- `ConnectionStatus::connected`.
abbrev pub is_connected : ConnectionState → Bool
is_connected ConnectionState.connected = true
is_connected state = false

unfoldable pub rejection : {P K : Type 0} → Option PromiseId → Error K → Effects P K
rejection none e = []
rejection (some resolver) e = (0, rejected resolver e) ∷ []

module _ {P O A K : Type 0} where
  unfoldable pub lend : Channels P O A K → Channel P O A K → Channel P O A K
  lend cs ch = record ch {
    configuration = cs.configuration;
    connection_status = cs.connection_status;
    frames = cs.frames;
  }

  unfoldable pub give_back : Channel P O A K → Channels P O A K → Channels P O A K
  give_back ch cs = record cs {
    configuration = ch.configuration;
    connection_status = ch.connection_status;
    frames = ch.frames;
  }

  unfoldable pub get : ChannelId → Channels P O A K → Option (Channel P O A K)
  get id cs = if id == 0 then some cs.channel0 else Dict.get ℕ_discrete id cs.channels

  unfoldable pub put : ChannelId → Channel P O A K → Channels P O A K → Channels P O A K
  put id ch cs =
      if id == 0
      then record cs { channel0 = ch }
      else record cs { channels = Dict.insert ℕ_discrete id ch cs.channels }

  -- What a channel of the connection is asked, if there is one of that id.
  unfoldable pub ask :
      ChannelId
      → (Channel P O A K → Done P O A K)
      → Channels P O A K
      → Channels P O A K × Effects P K × Result (Error K) (Unit {0})
  ask id handle cs = elim (get id cs) [
    | none ↦ (cs, [], err (from_kind (invalid_channel id)))
    | some ch ↦
        let (ch', effects, res) = handle (lend cs ch) in
        (put id ch' (give_back ch' cs), by id effects, res)
  ]

  unfoldable pub remove :
      ChannelId
      → Error K
      → Channels P O A K
      → Channels P O A K × Effects P K × Result (Error K) (Unit {0})
  remove id e cs =
      let (frames, effects) = clear_expected_replies id e cs.frames in
      let cs' : Channels P O A K = record cs { frames = frames } in
      let told = by 0 (map of_frames effects) in
      if id == 0 then (cs', told, ok tt) else elim (Dict.get ℕ_discrete id cs.channels) [
        | none ↦ (cs', told, err (from_kind (invalid_channel id)))
        | some ch ↦ (record cs' { channels = Dict.remove ℕ_discrete id cs.channels }, told, ok tt)
      ]

  -- The same done to each channel of the map; none of these uses what channels share.
  unfoldable pub each :
      (Channel P O A K → Channel P O A K × List (Effect P K))
      → List (ChannelId × Channel P O A K)
      → List (ChannelId × Channel P O A K) × Effects P K
  each f [] = ([], [])
  each f ((id, ch) ∷ channels) =
      let (ch', effects) = f ch in
      let (channels', more) = each f channels in ((id, ch') ∷ channels', by id effects ++ more)

  in_state : ConnectionState → Channels P O A K → Channels P O A K
  in_state state cs = record cs { connection_status = (set_state state cs.connection_status).1 }

  to_each :
      (Channel P O A K → Channel P O A K × List (Effect P K))
      → Channels P O A K
      → Channels P O A K × Effects P K
  to_each f cs =
      let (channels, effects) = each f cs.channels in (record cs { channels = channels }, effects)

  unfoldable pub set_connection_closing : Channels P O A K → Channels P O A K × Effects P K
  unfolding in_state to_each
  set_connection_closing cs = to_each (set_closing none) (in_state ConnectionState.closing cs)

  unfoldable pub set_connection_closed : Error K → Channels P O A K → Channels P O A K × Effects P K
  unfolding in_state to_each
  set_connection_closed e cs = to_each (set_closed e) (in_state ConnectionState.closed cs)

  unfoldable pub should_init_connection_recovery : Channels P O A K → Bool × Channels P O A K
  should_init_connection_recovery cs =
      if is_connected cs.connection_status.state
      then (true, record cs { connection_killswitch = (kill cs.connection_killswitch).0 })
      else (false, cs)

  fail : Error K → Channels P O A K → Channels P O A K × Effects P K
  unfolding to_each
  fail e cs =
      let (resolver, frames) = connection_resolver 0 cs.frames in
      let (dropped, effects) = drop_pending e frames in
      let (cs', more) = to_each (set_connection_error_here e) (record cs { frames = dropped }) in
      (
        cs',
        rejection resolver e
            ++ (by 0 (map of_frames effects) ++ ((0, event (Command.error e)) ∷ more)),
      )

  -- An error of a connection that is in error already does nothing.
  unfoldable pub set_connection_error : Error K → Channels P O A K → Channels P O A K × Effects P K
  unfolding in_state fail
  set_connection_error e cs =
      let cs' = in_state ConnectionState.error cs in
      if is_error cs.connection_status.state then (cs', []) else fail e cs'

  flows : List (ChannelId × Channel P O A K) → Bool
  flows [] = true
  flows ((id, ch) ∷ channels) = ch.status.send_flow && flows channels

  unfoldable pub flow : Channels P O A K → Bool
  unfolding flows
  flow cs = flows cs.channels

  unfoldable pub init_connection_shutdown :
      Error K → Option PromiseId → Channels P O A K → Channels P O A K × Effects P K
  init_connection_shutdown e resolver cs =
      let (frames, effects) = drop_pending e cs.frames in
      (record cs { frames = frames }, by 0 (map of_frames effects) ++ rejection resolver e)

  unfoldable pub finish_connection_shutdown : Channels P O A K → Channels P O A K
  finish_connection_shutdown cs = record cs {
    connection_killswitch = (kill cs.connection_killswitch).0;
  }
