-- ===== src/Frame.antt =====
-- src/frames.rs and src/connection_step.rs: frames with their promises, and expected replies.
-- A promise is its number, which its resolvers and cancelers share. What an operation does to
-- promises, and the commands it sends to the RPC task, is a list of effects, in order.
use lapin.Base.{ℕ, String, Bool, true, false, Option, none, some, List, [], ◌∷◌, ◌++◌, ◌≡◌}

abbrev pub ChannelId : Type 0
ChannelId = ℕ

abbrev pub ShortString : Type 0
ShortString = String

abbrev pub PromiseId : Type 0
PromiseId = ℕ

-- The methods and frames of the crate amq_protocol, as far as they are looked into. `P` is the
-- type of what this code stores and passes on unread.
pub data AmqpClass (P : Type 0) : Type 0 where
  basic_cancel : ShortString → P → AmqpClass P
  other : P → AmqpClass P

-- `AMQPContentHeader`: a content's class, its size in bytes, and its properties.
pub record ContentHeader (P : Type 0) : Type 0 where
  pub class_id : ℕ
  pub body_size : ℕ
  pub properties : P

pub data AmqpFrame (P : Type 0) : Type 0 where
  protocol_header : P → AmqpFrame P
  method : ChannelId → AmqpClass P → AmqpFrame P
  header : ChannelId → ContentHeader P → AmqpFrame P
  body : ChannelId → List ℕ → AmqpFrame P
  heartbeat : AmqpFrame P
  invalid_heartbeat : ChannelId → AmqpFrame P

-- The tests of the source's `matches!` and `match` on a frame.
abbrev pub is_protocol_header : {P : Type 0} → AmqpFrame P → Bool
is_protocol_header (protocol_header p) = true
is_protocol_header _ = false

abbrev pub is_content : {P : Type 0} → AmqpFrame P → Bool
is_content (header c p) = true
is_content (body c b) = true
is_content _ = false

abbrev pub header_shape : {P : Type 0} → AmqpFrame P → Bool
header_shape (header c p) = true
header_shape _ = false

abbrev pub carried_channel : {P : Type 0} → AmqpFrame P → ChannelId
carried_channel (method c m) = c
carried_channel (header c p) = c
carried_channel (body c b) = c
carried_channel (invalid_heartbeat c) = c
carried_channel _ = 0

-- The functions of amq_protocol that the code calls on frames, and what it relies on of them:
-- `is_header` tells the header frames, and `channel_id` is the channel that a frame carries, 0
-- for a frame that carries none.
pub record FrameApi (P : Type 0) : Type 0 where
  pub is_header : AmqpFrame P → Bool
  pub channel_id : AmqpFrame P → ChannelId
  pub amqp_0_9_1 : P
  pub is_header_lem : (f : AmqpFrame P) → is_header f ≡ header_shape f
  pub channel_id_lem : (f : AmqpFrame P) → channel_id f ≡ carried_channel f

-- `E` is the type of errors, which are only cloned and passed on.
pub data Effect (E : Type 0) : Type 0 where
  resolved : PromiseId → Effect E
  rejected : PromiseId → E → Effect E
  deregister_consumer : ChannelId → ShortString → Effect E

pub record FrameSending : Type 0 where
  pub canceler : Option PromiseId
  pub resolver : Option PromiseId

-- A resolver takes precedence over a canceler.
unfoldable pub reject : {E : Type 0} → FrameSending → E → List (Effect E)
reject s error = elim s.resolver [
  | some resolver ↦ rejected resolver error ∷ []
  | none ↦ elim s.canceler [ some canceler ↦ rejected canceler error ∷ [] | none ↦ [] ]
]

unfoldable pub resolve : {E : Type 0} → FrameSending → List (Effect E)
resolve s = elim s.resolver [ some resolver ↦ resolved resolver ∷ [] | none ↦ [] ]

pub record FrameEntry (P : Type 0) : Type 0 where
  pub frame : AmqpFrame P
  pub sending : FrameSending

-- src/connection_step.rs: a step carries its resolver, its connection and its authenticator.
pub data ConnectionStep (P : Type 0) : Type 0 where
  protocol_header : PromiseId → P → ConnectionStep P
  start_ok : PromiseId → P → P → ConnectionStep P
  secure_ok : PromiseId → P → P → ConnectionStep P

unfoldable pub into_connection_resolver : {P : Type 0} → ConnectionStep P → PromiseId × Option P
into_connection_resolver (protocol_header resolver connection) = (resolver, some connection)
into_connection_resolver (start_ok resolver connection auth) = (resolver, some connection)
into_connection_resolver (secure_ok resolver connection auth) = (resolver, some connection)

-- The replies that frames.rs does not tell apart. A bind has its destination, its source and its
-- routing key; a consume its queue, whether deliveries go unacknowledged, and the consumer that it
-- recovers.
pub data Answer (P : Type 0) : Type 0 where
  basic_qos_ok basic_get_ok basic_recover_ok : PromiseId → Answer P
  basic_consume_ok : PromiseId → ShortString → Bool → P → Option P → Answer P
  connection_open_ok : PromiseId → P → PromiseId → Answer P
  connection_close_ok connection_update_secret_ok : PromiseId → Answer P
  channel_open_ok : PromiseId → P → Answer P
  channel_flow_ok access_request_ok : PromiseId → Answer P
  exchange_declare_ok : PromiseId → ShortString → P → P → P → Answer P
  exchange_delete_ok queue_delete_ok : PromiseId → ShortString → Answer P
  exchange_bind_ok exchange_unbind_ok queue_bind_ok queue_unbind_ok :
      PromiseId → ShortString → ShortString → ShortString → P → Answer P
  queue_declare_ok : PromiseId → P → P → Answer P
  queue_purge_ok tx_select_ok tx_commit_ok tx_rollback_ok confirm_select_ok : PromiseId → Answer P

-- `Reply`, of src/generated/channel.rs.
pub data Reply (P : Type 0) : Type 0 where
  connection_step : ConnectionStep P → Reply P
  basic_cancel_ok : PromiseId → Reply P
  channel_close_ok : PromiseId → Reply P
  other : Answer P → Reply P

-- `ExpectedReply(reply, canceler)`.
pub record ExpectedReply (P : Type 0) : Type 0 where
  pub reply : Reply P
  pub canceler : PromiseId

cancel_as : {P E : Type 0} → Reply P → PromiseId → E → List (Effect E)
cancel_as (basic_cancel_ok resolver) canceler error = resolved resolver ∷ []
cancel_as (connection_step step) canceler error = rejected canceler error ∷ []
cancel_as (channel_close_ok resolver) canceler error = rejected canceler error ∷ []
cancel_as (other p) canceler error = rejected canceler error ∷ []

-- A consumer whose cancellation is pending counts as canceled; any other wait is rejected.
unfoldable pub cancel_expected_reply : {P E : Type 0} → ExpectedReply P → E → List (Effect E)
unfolding cancel_as
cancel_expected_reply r error = cancel_as r.reply r.canceler error

unfoldable pub cancel_expected_replies :
    {P E : Type 0} → List (ExpectedReply P) → E → List (Effect E)
cancel_expected_replies [] error = []
cancel_expected_replies (r ∷ rs) error =
    cancel_expected_reply r error ++ cancel_expected_replies rs error
