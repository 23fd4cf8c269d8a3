-- ===== src/Error.antt =====
-- src/error.rs, and the channel's state of src/channel_status.rs that errors carry. `K` is the type
-- of what comes from elsewhere: protocol versions, the errors of sockets, parsers and generators, and
-- the AMQP errors of the crate amq_protocol.
use lapin.Base.{ℕ, String, Bool, true, false, ◌&&◌, ◌||◌, Option, none}
use lapin.Frame.{ChannelId}
use lapin.ConnectionStatus.{ConnectionState}

abbrev pub NotifierId : Type 0
NotifierId = ℕ

pub data ChannelState : Type 0 where
  initial reconnecting connected closing closed error : ChannelState

pub data ErrorKind (K : Type 0) : Type 0 where
  channels_limit_reached : ErrorKind K
  invalid_protocol_version : K → ErrorKind K
  invalid_channel : ChannelId → ErrorKind K
  invalid_channel_state : ChannelState → String → ErrorKind K
  invalid_connection_state : ConnectionState → ErrorKind K
  io_error : K → ErrorKind K
  runtime_shutdown_error : K → ErrorKind K
  parsing_error : K → ErrorKind K
  protocol_error : K → ErrorKind K
  serialisation_error : K → ErrorKind K
  auth_provider_error : String → ErrorKind K
  future_completed : ErrorKind K
  no_default_runtime : ErrorKind K
  missing_heartbeat_error : ErrorKind K

pub record Error (K : Type 0) : Type 0 where
  pub kind : ErrorKind K
  pub notifier : Option NotifierId

module _ {K : Type 0} where
  -- `From<ErrorKind>`.
  unfoldable pub from_kind : ErrorKind K → Error K
  from_kind kind = record { kind = kind; notifier = none }

  unfoldable pub with_notifier : Option NotifierId → Error K → Error K
  with_notifier notifier err = record err { notifier = notifier }

  -- `wouldblock` and `interrupted` ask the socket's error, as `test` does.
  unfoldable pub io_error_is : (K → Bool) → Error K → Bool
  io_error_is test err = elim err.kind [ io_error e ↦ test e | _ ↦ false ]

  unfoldable pub is_runtime_shutdown_error : Error K → Bool
  is_runtime_shutdown_error err = elim err.kind [ runtime_shutdown_error e ↦ true | _ ↦ false ]

  unfoldable pub is_io_error : Error K → Bool
  is_io_error err = io_error_is (λ e. true) err || is_runtime_shutdown_error err

  unfoldable pub is_amqp_error : Error K → Bool
  is_amqp_error err = elim err.kind [ protocol_error e ↦ true | _ ↦ false ]

  kind_can_be_recovered : ErrorKind K → Bool
  kind_can_be_recovered channels_limit_reached = false
  kind_can_be_recovered (invalid_protocol_version v) = false
  kind_can_be_recovered (invalid_channel c) = true
  kind_can_be_recovered (invalid_channel_state s context) = true
  kind_can_be_recovered (invalid_connection_state s) = true
  kind_can_be_recovered (io_error e) = true
  kind_can_be_recovered (runtime_shutdown_error e) = false
  kind_can_be_recovered (parsing_error e) = false
  kind_can_be_recovered (protocol_error e) = true
  kind_can_be_recovered (serialisation_error e) = false
  kind_can_be_recovered (auth_provider_error e) = false
  kind_can_be_recovered future_completed = false
  kind_can_be_recovered no_default_runtime = false
  kind_can_be_recovered missing_heartbeat_error = true

  unfoldable pub can_be_recovered : Error K → Bool
  unfolding kind_can_be_recovered
  can_be_recovered err = kind_can_be_recovered err.kind

  -- `RecoveryConfig::can_recover` of src/configuration.rs.
  unfoldable pub can_recover : Bool → Error K → Bool
  can_recover auto_recover err = auto_recover && can_be_recovered err
