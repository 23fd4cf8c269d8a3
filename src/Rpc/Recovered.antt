-- ===== src/Rpc/Recovered.antt =====
-- From the report of a failure to the recovery, through the RPC task's own command.
use lapin.Base.{Option, All, ℕ, ◌<◌, true, ◌≡◌, some, List, [], ◌∷◌, ◌++◌, arith, length}
use lapin.Base.Dict
use lapin.Frame.{ChannelId, PromiseId, AmqpFrame, FrameApi, ExpectedReply}
use lapin.Frames.{replies_of}
use lapin.Acker.{killed, kill, armed}
use lapin.Error.{Error, can_recover}
use lapin.ConnectionStatus.{ConnectionState}
use lapin.Command.{Command}
use lapin.Heartbeat
use lapin.Channel.{Channel}
use lapin.Channels.{Channels, should_init_connection_recovery}
use lapin.Channels.Recovering.{Topology}
use lapin.Channels.Recovering.Poisoned.{
  Refuses, waits-Refuses, all_wait-Refuses, init_connection_recovery_lem,
}
use lapin.Rpc.{
  InternalRpc, Act, sent, waker_wakes, handle, recover_or_fail, recovering, woken, tells,
}

module _ {P O A K : Type 0} where
  -- An error that can be recovered, reported on a connected connection, kills the connection's switch and
  -- has the task send itself the command to recover. Given more fuel than channel 0 waits for replies,
  -- that command leaves channel 0 and all channels of the connection, which are those of before, waiting
  -- for the recovery. Whatever is then pushed on one of them, a frame or a list of frames, changes nothing:
  -- the expected reply of the frame is cancelled, and the resolver, or else the canceler, rejected.
  pub handle-Refuses :
      (api : FrameApi P) (pack : Topology P O A K → P) (make : ChannelId → Channel P O A K)
      (fuel read write : ℕ) (e : Error K) (rpc : InternalRpc P O A K) (frame : AmqpFrame P)
      (canceler : PromiseId) (reply : Option (ExpectedReply P)) (resolver : Option PromiseId)
      (fs : List (AmqpFrame P)) (promise : PromiseId)
      → can_recover rpc.channels.recovery_config e ≡ true
      → rpc.channels.connection_status.state ≡ ConnectionState.connected
      → length (replies_of 0 rpc.channels.frames) < fuel
      → (rpc1 : InternalRpc P O A K) × (rpc2 : InternalRpc P O A K) × (acts : List (Act P K))
        × (handle api pack make fuel read write (Command.set_connection_error e) rpc
            ≡ some (rpc1, sent (Command.init_connection_recovery e) ∷ waker_wakes ∷ []))
        × (killed rpc1.channels.connection_killswitch ≡ true)
        × (handle api pack make fuel read write (Command.init_connection_recovery e) rpc1
            ≡ some (rpc2, acts))
        × (Dict.keys rpc2.channels.channels ≡ Dict.keys rpc.channels.channels)
        × All
            (λ e. Refuses frame canceler reply resolver fs promise rpc2.channels.frames e.1)
            rpc2.channels.channels
        × Refuses frame canceler reply resolver fs promise rpc2.channels.frames
            rpc2.channels.channel0
  unfolding handle recover_or_fail should_init_connection_recovery woken recovering tells killed
      kill
  handle-Refuses api pack make fuel read write e rpc frame canceler reply resolver fs promise c s
        h =
      let cs1 : Channels P O A K = record rpc.channels {
        connection_killswitch = (kill rpc.channels.connection_killswitch).0;
      } in
      let (err, cs', effects, run, keys, all, one) =
        init_connection_recovery_lem api pack fuel e cs1 h in
      (
        record rpc { channels = cs1 },
        record rpc {
          channels = cs';
          heartbeat = Heartbeat.reset read write rpc.heartbeat;
          secret_update = armed;
        },
        tells effects ++ waker_wakes ∷ [],
        ground (arith, c, s),
        ground arith,
        ground (arith, run),
        keys,
        all_wait-Refuses frame canceler reply resolver fs promise cs'.frames cs'.channels all,
        waits-Refuses frame canceler reply resolver fs promise cs'.frames cs'.channel0 one,
      )
