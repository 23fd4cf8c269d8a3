-- ===== src/Requests/Exchange.antt =====
-- src/generated/channel.rs: the methods of the classes `exchange` and `tx`, and of `access`. Each that may
-- go unanswered is given what the made-up answer is received with.
use lapin.Base.{ℕ, Bool, Option, none, some}
use lapin.Frame.{PromiseId, ShortString, AmqpClass, Answer}
use lapin.Frame
use lapin.ChannelStatus.{can_receive_messages}
use lapin.Channel.{Protocol, Channel}
use lapin.Channel.Declared as Handlers
use lapin.Requests.{
  Handler, Sent, connected, request, request_nowait, answer_of, receive, completes, acknowledges,
}

abbrev exchange_declare_ok : {P K : Type 0} → Answer P → Option (Handler P K)
exchange_declare_ok (Frame.exchange_declare_ok resolver exchange kind options arguments) =
    some (Handlers.on_exchange_declare_ok_received resolver exchange kind options arguments)
exchange_declare_ok _ = none

abbrev exchange_delete_ok : {P K : Type 0} → Answer P → Option (Handler P K)
exchange_delete_ok (Frame.exchange_delete_ok resolver exchange) =
    some (completes resolver (Handlers.on_exchange_delete_ok_received exchange))
exchange_delete_ok _ = none

abbrev exchange_bind_ok : {P K : Type 0} → Answer P → Option (Handler P K)
exchange_bind_ok (Frame.exchange_bind_ok resolver destination source routing_key arguments) = some (
    completes resolver
      (Handlers.on_exchange_bind_ok_received destination source routing_key arguments))
exchange_bind_ok _ = none

abbrev exchange_unbind_ok : {P K : Type 0} → (P → P → Bool) → Answer P → Option (Handler P K)
exchange_unbind_ok same
      (Frame.exchange_unbind_ok resolver destination source routing_key arguments) =
    some (
      completes resolver
        (Handlers.on_exchange_unbind_ok_received same destination source routing_key arguments))
exchange_unbind_ok same _ = none

abbrev tx_select_ok : {P K : Type 0} → Answer P → Option (Handler P K)
tx_select_ok (Frame.tx_select_ok resolver) = some (acknowledges resolver)
tx_select_ok _ = none

abbrev tx_commit_ok : {P K : Type 0} → Answer P → Option (Handler P K)
tx_commit_ok (Frame.tx_commit_ok resolver) = some (acknowledges resolver)
tx_commit_ok _ = none

abbrev tx_rollback_ok : {P K : Type 0} → Answer P → Option (Handler P K)
tx_rollback_ok (Frame.tx_rollback_ok resolver) = some (acknowledges resolver)
tx_rollback_ok _ = none

abbrev access_request_ok : {P K : Type 0} → Answer P → Option (Handler P K)
access_request_ok (Frame.access_request_ok resolver) = some (acknowledges resolver)
access_request_ok _ = none

module _ {P K : Type 0} where
  unfoldable pub receive_exchange_declare_ok : Protocol K → ℕ → ℕ → Handler P K
  receive_exchange_declare_ok api class_id method_id =
      receive can_receive_messages "exchange.declare-ok" api class_id method_id
        (answer_of exchange_declare_ok)

  unfoldable pub do_exchange_declare :
      Protocol K
      → ℕ
      → ℕ
      → AmqpClass P
      → Bool
      → ShortString
      → P
      → P
      → P
      → PromiseId
      → Channel P P P K
      → Sent P K
  do_exchange_declare api class_id method_id m nowait exchange kind options arguments promise ch =
      request_nowait nowait (receive_exchange_declare_ok api class_id method_id) connected
        "exchange.declare" m (Frame.exchange_declare_ok promise exchange kind options arguments)
        promise ch

  unfoldable pub receive_exchange_delete_ok : Protocol K → ℕ → ℕ → Handler P K
  receive_exchange_delete_ok api class_id method_id =
      receive can_receive_messages "exchange.delete-ok" api class_id method_id
        (answer_of exchange_delete_ok)

  unfoldable pub exchange_delete :
      Protocol K → ℕ → ℕ → AmqpClass P → Bool → ShortString → PromiseId → Channel P P P K → Sent P K
  exchange_delete api class_id method_id m nowait exchange promise ch =
      request_nowait nowait (receive_exchange_delete_ok api class_id method_id) connected
        "exchange.delete" m (Frame.exchange_delete_ok promise exchange) promise ch

  unfoldable pub receive_exchange_bind_ok : Protocol K → ℕ → ℕ → Handler P K
  receive_exchange_bind_ok api class_id method_id =
      receive can_receive_messages "exchange.bind-ok" api class_id method_id
        (answer_of exchange_bind_ok)

  unfoldable pub exchange_bind :
      Protocol K
      → ℕ
      → ℕ
      → AmqpClass P
      → Bool
      → ShortString
      → ShortString
      → ShortString
      → P
      → PromiseId
      → Channel P P P K
      → Sent P K
  exchange_bind api class_id method_id m nowait destination source routing_key arguments promise
        ch =
      request_nowait nowait (receive_exchange_bind_ok api class_id method_id) connected
        "exchange.bind" m (Frame.exchange_bind_ok promise destination source routing_key arguments)
        promise ch

  unfoldable pub receive_exchange_unbind_ok : (P → P → Bool) → Protocol K → ℕ → ℕ → Handler P K
  receive_exchange_unbind_ok same api class_id method_id =
      receive can_receive_messages "exchange.unbind-ok" api class_id method_id
        (answer_of (exchange_unbind_ok same))

  unfoldable pub exchange_unbind :
      (P → P → Bool)
      → Protocol K
      → ℕ
      → ℕ
      → AmqpClass P
      → Bool
      → ShortString
      → ShortString
      → ShortString
      → P
      → PromiseId
      → Channel P P P K
      → Sent P K
  exchange_unbind same api class_id method_id m nowait destination source routing_key arguments
        promise ch =
      request_nowait nowait (receive_exchange_unbind_ok same api class_id method_id) connected
        "exchange.unbind" m
        (Frame.exchange_unbind_ok promise destination source routing_key arguments) promise ch

  unfoldable pub receive_tx_select_ok : Protocol K → ℕ → ℕ → Handler P K
  receive_tx_select_ok api class_id method_id =
      receive can_receive_messages "tx.select-ok" api class_id method_id (answer_of tx_select_ok)

  unfoldable pub tx_select : AmqpClass P → PromiseId → Channel P P P K → Sent P K
  tx_select m promise ch = request connected "tx.select" m (Frame.tx_select_ok promise) promise ch

  unfoldable pub receive_tx_commit_ok : Protocol K → ℕ → ℕ → Handler P K
  receive_tx_commit_ok api class_id method_id =
      receive can_receive_messages "tx.commit-ok" api class_id method_id (answer_of tx_commit_ok)

  unfoldable pub tx_commit : AmqpClass P → PromiseId → Channel P P P K → Sent P K
  tx_commit m promise ch = request connected "tx.commit" m (Frame.tx_commit_ok promise) promise ch

  unfoldable pub receive_tx_rollback_ok : Protocol K → ℕ → ℕ → Handler P K
  receive_tx_rollback_ok api class_id method_id =
      receive can_receive_messages "tx.rollback-ok" api class_id method_id
        (answer_of tx_rollback_ok)

  unfoldable pub tx_rollback : AmqpClass P → PromiseId → Channel P P P K → Sent P K
  tx_rollback m promise ch =
      request connected "tx.rollback" m (Frame.tx_rollback_ok promise) promise ch

  unfoldable pub receive_access_request_ok : Protocol K → ℕ → ℕ → Handler P K
  receive_access_request_ok api class_id method_id =
      receive can_receive_messages "access.request-ok" api class_id method_id
        (answer_of access_request_ok)

  unfoldable pub access_request : AmqpClass P → PromiseId → Channel P P P K → Sent P K
  access_request m promise ch =
      request connected "access.request" m (Frame.access_request_ok promise) promise ch
