-- ===== src/Requests/Queue.antt =====
-- src/generated/channel.rs: the methods of the class `queue`. Each that may go unanswered is given what
-- the made-up answer is received with.
use lapin.Base.{ℕ, Bool, Option, none, some}
use lapin.Frame.{PromiseId, ShortString, AmqpClass, Answer}
use lapin.Frame
use lapin.ChannelStatus.{can_receive_messages}
use lapin.Channel.{Protocol, Channel}
use lapin.Channel.Declared as Handlers
use lapin.Requests.{
  Handler, Sent, connected, request, request_nowait, answer_of, receive, completes,
}

abbrev queue_declare_ok : {P K : Type 0} → ShortString → Answer P → Option (Handler P K)
queue_declare_ok queue (Frame.queue_declare_ok resolver options arguments) =
    some (Handlers.on_queue_declare_ok_received resolver queue options arguments)
queue_declare_ok queue _ = none

abbrev queue_bind_ok : {P K : Type 0} → Answer P → Option (Handler P K)
queue_bind_ok (Frame.queue_bind_ok resolver queue exchange routing_key arguments) =
    some
      (completes resolver (Handlers.on_queue_bind_ok_received queue exchange routing_key arguments))
queue_bind_ok _ = none

abbrev queue_purge_ok : {P K : Type 0} → Answer P → Option (Handler P K)
queue_purge_ok (Frame.queue_purge_ok resolver) = some (Handlers.on_queue_purge_ok_received resolver)
queue_purge_ok _ = none

abbrev queue_delete_ok : {P K : Type 0} → Answer P → Option (Handler P K)
queue_delete_ok (Frame.queue_delete_ok resolver queue) =
    some (Handlers.on_queue_delete_ok_received resolver queue)
queue_delete_ok _ = none

abbrev queue_unbind_ok : {P K : Type 0} → (P → P → Bool) → Answer P → Option (Handler P K)
queue_unbind_ok same (Frame.queue_unbind_ok resolver queue exchange routing_key arguments) = some (
    completes resolver
      (Handlers.on_queue_unbind_ok_received same queue exchange routing_key arguments))
queue_unbind_ok same _ = none

module _ {P K : Type 0} where
  unfoldable pub receive_queue_declare_ok : ShortString → Protocol K → ℕ → ℕ → Handler P K
  receive_queue_declare_ok queue api class_id method_id =
      receive can_receive_messages "queue.declare-ok" api class_id method_id
        (answer_of (queue_declare_ok queue))

  unfoldable pub queue_declare :
      ShortString
      → Protocol K
      → ℕ
      → ℕ
      → AmqpClass P
      → Bool
      → P
      → P
      → PromiseId
      → Channel P P P K
      → Sent P K
  queue_declare queue api class_id method_id m nowait options arguments promise ch =
      request_nowait nowait (receive_queue_declare_ok queue api class_id method_id) connected
        "queue.declare" m (Frame.queue_declare_ok promise options arguments) promise ch

  unfoldable pub receive_queue_bind_ok : Protocol K → ℕ → ℕ → Handler P K
  receive_queue_bind_ok api class_id method_id =
      receive can_receive_messages "queue.bind-ok" api class_id method_id (answer_of queue_bind_ok)

  unfoldable pub queue_bind :
      Protocol K
      → ℕ
      → ℕ
      → AmqpClass P
      → Bool
      → ShortString
      → ShortString
      → ShortString
      → P
      → PromiseId
      → Channel P P P K
      → Sent P K
  queue_bind api class_id method_id m nowait queue exchange routing_key arguments promise ch =
      request_nowait nowait (receive_queue_bind_ok api class_id method_id) connected "queue.bind" m
        (Frame.queue_bind_ok promise queue exchange routing_key arguments) promise ch

  unfoldable pub receive_queue_purge_ok : Protocol K → ℕ → ℕ → Handler P K
  receive_queue_purge_ok api class_id method_id =
      receive can_receive_messages "queue.purge-ok" api class_id method_id
        (answer_of queue_purge_ok)

  unfoldable pub queue_purge :
      Protocol K → ℕ → ℕ → AmqpClass P → Bool → PromiseId → Channel P P P K → Sent P K
  queue_purge api class_id method_id m nowait promise ch =
      request_nowait nowait (receive_queue_purge_ok api class_id method_id) connected "queue.purge"
        m (Frame.queue_purge_ok promise) promise ch

  unfoldable pub receive_queue_delete_ok : Protocol K → ℕ → ℕ → Handler P K
  receive_queue_delete_ok api class_id method_id =
      receive can_receive_messages "queue.delete-ok" api class_id method_id
        (answer_of queue_delete_ok)

  unfoldable pub queue_delete :
      Protocol K → ℕ → ℕ → AmqpClass P → Bool → ShortString → PromiseId → Channel P P P K → Sent P K
  queue_delete api class_id method_id m nowait queue promise ch =
      request_nowait nowait (receive_queue_delete_ok api class_id method_id) connected
        "queue.delete" m (Frame.queue_delete_ok promise queue) promise ch

  unfoldable pub receive_queue_unbind_ok : (P → P → Bool) → Protocol K → ℕ → ℕ → Handler P K
  receive_queue_unbind_ok same api class_id method_id =
      receive can_receive_messages "queue.unbind-ok" api class_id method_id
        (answer_of (queue_unbind_ok same))

  -- `queue.unbind` is always answered.
  unfoldable pub queue_unbind :
      AmqpClass P
      → ShortString
      → ShortString
      → ShortString
      → P
      → PromiseId
      → Channel P P P K
      → Sent P K
  queue_unbind m queue exchange routing_key arguments promise ch =
      request connected "queue.unbind" m
        (Frame.queue_unbind_ok promise queue exchange routing_key arguments) promise ch
