-- ===== src/Rpc.antt =====
-- src/internal_rpc.rs, `run`: what the RPC task makes of each command. A future that it registers is told
-- by what it awaits, with the promise that its result completes; running it is not modelled.
pub mod Recovered
use lapin.Base.{
  ℕ, String, Bool, true, false, not, ◌&&◌, Option, none, some, List, [], ◌∷◌, ◌++◌, map, ℕ_discrete,
  if◌then◌else◌,
}
use lapin.Base.Dict
use lapin.Frame.{ChannelId, PromiseId, ShortString, AmqpFrame, FrameApi}
use lapin.Frame
use lapin.Acker.{Result, ok, err, ErrorHolder, KillSwitch, armed, kill}
use lapin.Acker
use lapin.Error.{Error, can_recover}
use lapin.ChannelStatus.{SwitchId, is_dead}
use lapin.Heartbeat.{Heartbeat, set_timeout}
use lapin.Heartbeat
use lapin.Frames.{Frames, push}
use lapin.Frames.Discard.{clear_all_expected_replies}
use lapin.Command.{Command, Task}
use lapin.Command
use lapin.Channel.{Channel, Effect, of_frames, wake}
use lapin.Channel.Basic.{deregister_consumer}
use lapin.Channels.{Channels, Effects, by, get, put, lend, give_back}
use lapin.Channels
use lapin.Channels.Recovering.{Topology, init_connection_recovery}
use lapin.Channels.Routed.{create}

-- The task's state; `secret_update` is the switch that stops the refresh of secrets, as it is now: a
-- reset also ends the refresh that holds the old one.
pub record InternalRpc (P O A K : Type 0) : Type 0 where
  pub channels : Channels P O A K
  pub channels_status : List (ChannelId × SwitchId)
  pub heartbeat : Heartbeat
  pub secret_update : KillSwitch

-- What the task does: effects on the channels, futures, its own commands.
pub data Act (P K : Type 0) : Type 0 where
  told : ChannelId → Effect P K → Act P K
  registered : Task K → Option PromiseId → Act P K
  sent : Command K → Act P K
  rejected : PromiseId → Error K → Act P K
  heartbeat_starts secret_update_starts waker_wakes : Act P K

tells : {P K : Type 0} → Effects P K → List (Act P K)
tells effects = map (λ e. told e.0 e.1) effects

-- The channel of an acker's command.
abbrev of_channel : Acker.Command → ChannelId
of_channel (Acker.basic_ack id tag multiple) = id
of_channel (Acker.basic_nack id tag multiple requeue) = id
of_channel (Acker.basic_reject id tag requeue) = id

module _ {P O A K : Type 0} where
  -- A channel whose kill switch is known and has not been used.
  unfoldable pub channel_ok : ChannelId → InternalRpc P O A K → Bool
  channel_ok id rpc = elim (Dict.get ℕ_discrete id rpc.channels_status) [
    | none ↦ false
    | some switch ↦ not (is_dead switch rpc.channels.store.dead)
  ]

  with_channels :
      Channels P O A K × Effects P K → InternalRpc P O A K → InternalRpc P O A K × List (Act P K)
  unfolding tells
  with_channels (channels, effects) rpc = (record rpc { channels = channels }, tells effects)

  -- `continue`, which also skips the waker, where the channel is not known or is being recovered.
  on_ok :
      ChannelId
      → Task K
      → Option PromiseId
      → InternalRpc P O A K
      → InternalRpc P O A K × List (Act P K)
  on_ok id task resolver rpc =
      if channel_ok id rpc then (rpc, registered task resolver ∷ waker_wakes ∷ []) else (rpc, [])

  woken : InternalRpc P O A K × List (Act P K) → InternalRpc P O A K × List (Act P K)
  woken (rpc, acts) = (rpc, acts ++ waker_wakes ∷ [])

  deregister : ChannelId → ShortString → Channels P O A K → Channels P O A K × Effects P K
  deregister id tag cs = elim (get id cs) [
    | none ↦ (cs, [])
    | some ch ↦
        let (ch', effects) = deregister_consumer tag (lend cs ch) in
        (put id ch' (give_back ch' cs), by id effects)
  ]

  beat : PromiseId → Channels P O A K → Channels P O A K × Effects P K
  beat promise cs =
      let (frames, effects) = push 0 AmqpFrame.heartbeat promise none (some promise) cs.frames in
      (record cs { frames = frames }, by 0 (map of_frames effects ++ wake ∷ []))

  recover_or_fail : Error K → InternalRpc P O A K → InternalRpc P O A K × List (Act P K)
  unfolding with_channels
  recover_or_fail e rpc =
      if can_recover rpc.channels.recovery_config e
      then (let (starts, channels) = Channels.should_init_connection_recovery rpc.channels in
          (
            record rpc { channels = channels },
            if starts then sent (Command.init_connection_recovery e) ∷ [] else [],
          ))
      else with_channels (Channels.set_connection_error e rpc.channels) rpc

  created :
      PromiseId
      → Option (Result (Error K) ChannelId × Channels P O A K)
      → InternalRpc P O A K
      → Option (InternalRpc P O A K × List (Act P K))
  created resolver none rpc = none
  created resolver (some (ok id, channels)) rpc =
      some
        (record rpc { channels = channels }, registered (Task.channel_open id) (some resolver) ∷ [])
  created resolver (some (err e, channels)) rpc =
      some (record rpc { channels = channels }, rejected resolver e ∷ [])

  recovering :
      Option (Error K × Channels P O A K × Effects P K)
      → InternalRpc P O A K
      → Option (InternalRpc P O A K × List (Act P K))
  unfolding tells
  recovering none rpc = none
  recovering (some (e, channels, effects)) rpc =
      some (record rpc { channels = channels }, tells effects)

  -- The argument `read` and `write` are the clock when the heartbeat is reset; `fuel` is for the search of
  -- an id and for the steps of a handshake, and `none` means that it ran out.
  module _ (api : FrameApi P) (pack : Topology P O A K → P) (make : ChannelId → Channel P O A K)
      (fuel read write : ℕ) where
    unfoldable pub handle :
        Command K → InternalRpc P O A K → Option (InternalRpc P O A K × List (Act P K))
    unfolding with_channels on_ok woken deregister beat recover_or_fail created recovering
    handle (Command.acknowledge c resolver error) rpc =
        some (on_ok (of_channel c) (Task.acknowledge error c) (some resolver) rpc)
    handle (Command.cancel_consumer id tag active) rpc =
        some (on_ok id (Task.basic_cancel id tag) none rpc)
    handle (Command.close_channel id code text) rpc =
        some (on_ok id (Task.close id code text) none rpc)
    handle (Command.remove_channel id e) rpc = some (on_ok id (Task.remove id e) none rpc)
    handle (Command.close_connection e class_id method_id resolver) rpc =
        some (woken (rpc, registered (Task.connection_close e class_id method_id) resolver ∷ []))
    handle (Command.create_channel resolver) rpc =
        elim (created resolver (create fuel make rpc.channels) rpc) [
          | none ↦ none
          | some result ↦ some (woken result)
        ]
    handle (Command.deregister_consumer id tag) rpc =
        some (woken (with_channels (deregister id tag rpc.channels) rpc))
    handle Command.finish_connection_shutdown rpc =
        some
          (woken (record rpc { channels = Channels.finish_connection_shutdown rpc.channels }, []))
    handle (Command.init_connection_recovery e) rpc =
        let rpc' : InternalRpc P O A K = record rpc {
          heartbeat = Heartbeat.reset read write rpc.heartbeat;
          secret_update = armed;
        } in
        elim (recovering (init_connection_recovery api pack fuel e rpc.channels) rpc') [
          | none ↦ none
          | some result ↦ some (woken result)
        ]
    handle (Command.init_connection_shutdown e resolver) rpc =
        some (woken (with_channels (Channels.init_connection_shutdown e resolver rpc.channels) rpc))
    handle (Command.send_connection_close_ok e) rpc =
        some (woken (rpc, registered (Task.connection_close_ok e) none ∷ []))
    handle (Command.send_heartbeat promise) rpc =
        let (rpc', acts) = with_channels (beat promise rpc.channels) rpc in
        some (woken (rpc', acts ++ registered (Task.heartbeat_sent promise) none ∷ []))
    handle (Command.set_channel_status id switch) rpc = some (
        woken (
          record rpc { channels_status = Dict.insert ℕ_discrete id switch rpc.channels_status },
          [],
        ))
    handle Command.set_connection_closing rpc = some (
        woken (
          with_channels (Channels.set_connection_closing rpc.channels) (record rpc {
            heartbeat = Heartbeat.cancel rpc.heartbeat;
            secret_update = (kill rpc.secret_update).0;
          })))
    handle (Command.set_connection_closed e) rpc =
        let (frames, effects) = clear_all_expected_replies e rpc.channels.frames in
        let (channels, more) =
          Channels.set_connection_closed e (record rpc.channels { frames = frames }) in
        some (woken (with_channels (channels, by 0 (map of_frames effects) ++ more) rpc))
    handle (Command.set_connection_error e) rpc = some (woken (recover_or_fail e rpc))
    handle (Command.spawn task) rpc = some (woken (rpc, registered task none ∷ []))
    handle Command.start_channels_recovery rpc =
        some (woken (rpc, registered Task.start_recovery none ∷ []))
    handle (Command.start_heartbeat timeout) rpc = some (
        woken (
          record rpc { heartbeat = set_timeout timeout rpc.heartbeat },
          heartbeat_starts ∷ secret_update_starts ∷ [],
        ))
    handle (Command.update_secret secret reason resolver) rpc =
        some (
          woken
            (rpc, registered (Task.connection_update_secret secret reason) (some resolver) ∷ []))
