-- ===== src/Command.antt =====
-- The commands of src/internal_rpc.rs, the events of src/events.rs, and the calls that the RPC task runs
-- as futures of their own. `K` is the type of AMQP errors.
use lapin.Base.{ℕ, String, Bool, Option, none, List, [], ◌∷◌}
use lapin.Frame.{ChannelId, PromiseId, ShortString}
use lapin.Acker.{ErrorHolder}
use lapin.Acker
use lapin.Error.{Error}

-- A future, by the method that it awaits. The first are those given to `spawn`, of which those of the
-- handshake carry the promise
-- of the connection; its connection and its authenticator are left out.
pub data Task (K : Type 0) : Type 0 where
  channel_flow_ok : Bool → Task K
  channel_close_ok : Option (Error K) → Task K
  do_channel_close : K → ℕ → ℕ → Task K
  basic_cancel_ok : ShortString → Task K
  connection_start_ok connection_secure_ok : PromiseId → Task K
  connection_tune_ok_and_open : ℕ → ℕ → ℕ → String → PromiseId → Task K
  acknowledge : Option (ErrorHolder (Error K)) → Acker.Command → Task K
  basic_cancel : ChannelId → ShortString → Task K
  close : ChannelId → ℕ → ShortString → Task K
  connection_close : K → ℕ → ℕ → Task K
  channel_open : ChannelId → Task K
  remove : ChannelId → Error K → Task K
  connection_close_ok : Error K → Task K
  heartbeat_sent : PromiseId → Task K
  start_recovery : Task K
  connection_update_secret : String → ShortString → Task K

-- `InternalCommand`. `acknowledge` is an acker's command with its promise and its error holder; the
-- state of a consumer that is to be canceled is whether it is active when the future runs.
pub data Command (K : Type 0) : Type 0 where
  acknowledge : Acker.Command → PromiseId → Option (ErrorHolder (Error K)) → Command K
  cancel_consumer : ChannelId → ShortString → Bool → Command K
  close_channel : ChannelId → ℕ → ShortString → Command K
  create_channel : PromiseId → Command K
  send_heartbeat : PromiseId → Command K
  set_channel_status : ChannelId → ℕ → Command K
  start_channels_recovery : Command K
  start_heartbeat : ℕ → Command K
  update_secret : String → ShortString → PromiseId → Command K
  close_connection : K → ℕ → ℕ → Option PromiseId → Command K
  deregister_consumer : ChannelId → ShortString → Command K
  finish_connection_shutdown : Command K
  init_connection_recovery : Error K → Command K
  init_connection_shutdown : Error K → Option PromiseId → Command K
  remove_channel : ChannelId → Error K → Command K
  send_connection_close_ok : Error K → Command K
  set_connection_closing : Command K
  set_connection_closed : Error K → Command K
  set_connection_error : Error K → Command K
  spawn : Task K → Command K

pub data Event (K : Type 0) : Type 0 where
  connected : Event K
  connection_blocked : String → Event K
  connection_unblocked : Event K
  send_flow : Bool → Event K
  error : Error K → Event K

-- `InternalRPCHandle::close_connection` and `init_connection_shutdown`: both first announce that the
-- connection closes.
unfoldable pub closes_connection : {K : Type 0} → K → ℕ → ℕ → List (Command K)
closes_connection e class_id method_id =
    set_connection_closing ∷ close_connection e class_id method_id none ∷ []

unfoldable pub inits_connection_shutdown :
    {K : Type 0} → Error K → Option PromiseId → List (Command K)
inits_connection_shutdown e resolver =
    set_connection_closing ∷ init_connection_shutdown e resolver ∷ []
