-- ===== src/Connection.antt =====
-- src/connection.rs, with src/connection_closer.rs, src/channel_closer.rs, src/consumer_canceler.rs,
-- src/secret_update.rs and src/thread.rs: the handle of a connection, what it asks of the RPC task, and
-- what happens when handles are dropped. The status is shared, and given. A command that is awaited
-- carries its promise.
pub mod Opening
use lapin.Base.{
  ℕ, String, Bool, true, false, not, ◌&&◌, Option, none, some, List, [], ◌∷◌, ◌++◌, map, ◌==◌,
  if◌then◌else◌,
}
use lapin.Frame.{
  ChannelId, PromiseId, ShortString, AmqpFrame, FrameApi, ExpectedReply, Reply, ConnectionStep,
}
use lapin.Acker.{Result, ok, err, KillSwitch, armed, kill, killed}
use lapin.Error.{Error, ErrorKind, from_kind}
use lapin.ChannelStatus.{ChannelStatus}
use lapin.ChannelStatus
use lapin.ConnectionStatus.{ConnectionStatus, ConnectionState, set_connecting}
use lapin.ConsumerStatus.{ConsumerStatus, ConsumerState}
use lapin.Command
use lapin.Command.{Command}
use lapin.Frames.{Frames, push}
use lapin.Channel.{Effect, of_frames, wake}
use lapin.Channels.{Channels, Effects, by, is_connected}

-- The reply code and text of a success, constants of the crate amq_protocol, as an error of `K` and as
-- they are.
pub record Success (K : Type 0) : Type 0 where
  pub reply : K
  pub reply_success : ℕ

module _ {K : Type 0} where
  unfoldable pub ensure_connected : ConnectionStatus (Error K) → Result (Error K) (Unit {0})
  ensure_connected s =
      if is_connected s.state
      then ok tt
      else err (from_kind (ErrorKind.invalid_connection_state s.state))

  unfoldable pub auto_close : ConnectionStatus (Error K) → Bool
  auto_close s = elim s.state [
    | ConnectionState.connecting ↦ true
    | ConnectionState.connected ↦ true
    | _ ↦ false
  ]

-- `ConnectionCloser`, less what it shares.
pub record ConnectionCloser : Type 0 where
  pub noop : Bool

unfoldable pub new_closer : ConnectionCloser
new_closer = record { noop = false }

unfoldable pub noop : ConnectionCloser → ConnectionCloser
noop c = record { noop = true }

pub record ConsumerCanceler : Type 0 where
  pub channel_id : ChannelId
  pub consumer_tag : ShortString
  pub status : ConsumerStatus

module _ {K : Type 0} (success : Success K) where
  unfoldable pub drop_connection_closer :
      ConnectionStatus (Error K) → ConnectionCloser → List (Command K)
  unfolding auto_close
  drop_connection_closer status c =
      if c.noop
      then []
      else if auto_close status
      then Command.close_connection success.reply 0 0 none ∷ []
      else []

  unfoldable pub drop_channel_closer :
      {P : Type 0} → ChannelId → ChannelStatus P K → List (Command K)
  drop_channel_closer id status =
      if ChannelStatus.auto_close id status
      then Command.close_channel id success.reply_success "OK" ∷ []
      else []

-- `active` is whether the consumer still is when the command is carried out.
unfoldable pub drop_consumer_canceler : {K : Type 0} → Bool → ConsumerCanceler → List (Command K)
drop_consumer_canceler active c = elim c.status.state [
  | ConsumerState.active ↦ Command.cancel_consumer c.channel_id c.consumer_tag active ∷ []
  | _ ↦ []
]

-- The handle of a connection, less what it shares.
pub record Connection : Type 0 where
  pub closer : ConnectionCloser

unfoldable pub new : Connection
unfolding new_closer
new = record { closer = new_closer }

unfoldable pub for_reconnect : Connection
unfolding new noop
for_reconnect = record new { closer = noop new.closer }

module _ {K : Type 0} where
  asked : Result (Error K) (Unit {0}) → Command K → Result (Error K) (Command K)
  asked (ok t) command = ok command
  asked (err e) command = err e

  -- What is asked, with the promise that is awaited; or the error of a connection that is not open.
  unfoldable pub create_channel :
      PromiseId → ConnectionStatus (Error K) → Result (Error K) (Command K)
  unfolding asked ensure_connected
  create_channel promise status = asked (ensure_connected status) (Command.create_channel promise)

  -- `reply` is the code with the text.
  unfoldable pub close : K → PromiseId → ConnectionStatus (Error K) → Result (Error K) (Command K)
  unfolding asked ensure_connected
  close reply promise status =
      asked (ensure_connected status) (Command.close_connection reply 0 0 (some promise))

  unfoldable pub update_secret :
      String → ShortString → PromiseId → ConnectionStatus (Error K) → Result (Error K) (Command K)
  unfolding asked ensure_connected
  update_secret secret reason promise status =
      asked (ensure_connected status) (Command.update_secret secret reason promise)

  unfoldable pub send_frame :
      {P : Type 0}
      → ChannelId
      → AmqpFrame P
      → PromiseId
      → Option (ExpectedReply P)
      → Option PromiseId
      → Frames P (Error K)
      → Frames P (Error K) × List (Effect P K)
  send_frame id f canceler expected_reply resolver frames =
      let (frames', effects) = push id f canceler expected_reply resolver frames in
      (frames', map of_frames effects ++ wake ∷ [])

  -- The promise of the connection is awaited, unless the connection was poisoned before; `connection` is
  -- the handle itself, which the expected reply carries.
  unfoldable pub start :
      {P O A : Type 0}
      → FrameApi P
      → PromiseId
      → P
      → Channels P O A K
      → Channels P O A K × Effects P K × Result (Error K) PromiseId
  unfolding send_frame
  start api promise connection cs =
      let (res, status) = set_connecting cs.connection_status in
      let expected : ExpectedReply _ = record {
        reply = Reply.connection_step (ConnectionStep.protocol_header promise connection);
        canceler = promise;
      } in
      let (frames, effects) =
        send_frame cs.channel0.id (AmqpFrame.protocol_header api.amqp_0_9_1) promise (some expected)
          none cs.frames in
      let cs' : Channels _ _ _ K = record cs { connection_status = status } in
      elim res [
        | err e ↦ (cs', [], err e)
        | ok t ↦ (record cs' { frames = frames }, by 0 effects, ok promise)
      ]

-- `SecretUpdate`: the switch that the running loop holds is that of when it was started.
unfoldable pub poll_timeout : {E : Type 0} → KillSwitch → Option ℕ → ConnectionStatus E → Option ℕ
poll_timeout switch valid_for status =
    if killed switch then none else if is_connected status.state then valid_for else none

unfoldable pub cancel : KillSwitch → KillSwitch
cancel switch = (kill switch).0

-- The switch of before, which is killed, and a new one.
unfoldable pub reset : KillSwitch → KillSwitch × KillSwitch
unfolding cancel
reset switch = (cancel switch, armed)

-- `ThreadHandle`: a thread, if it has been registered and not been waited for.
unfoldable pub register : {H : Type 0} → H → Option H → Option H
register handle inner = some handle

-- `join` gives what the thread has returned, and `itself` says that it is the current one.
unfoldable pub wait :
    {H E : Type 0}
    → (H → Result E (Unit {0}))
    → (H → Bool)
    → Option H
    → Result E (Unit {0}) × Option H
wait join itself none = (ok tt, none)
wait join itself (some handle) = (if itself handle then ok tt else join handle, none)
