-- ===== src/Requests/Basic.antt =====
-- src/generated/channel.rs: the methods of the class `basic`.
pub mod Nowait
use lapin.Base.{
  ℕ, String, Bool, true, false, Option, none, some, List, [], ◌∷◌, ◌++◌, map, if◌then◌else◌,
}
use lapin.Frame.{PromiseId, ShortString, AmqpFrame, AmqpClass, Reply, other, ExpectedReply, Answer}
use lapin.Frame
use lapin.Acker.{Result, ok, err, KillSwitch}
use lapin.Error.{Error}
use lapin.ChannelStatus.{SwitchId, can_receive_messages, state_error}
use lapin.Consumer.{Consumer}
use lapin.Channel.{Protocol, Channel, Effect, of_frames, wake, Done}
use lapin.Channel.Basic as Handlers
use lapin.Channel.Acks
use lapin.Requests.{
  Handler, Sent, connected, send_method_frame, request, request_nowait, notify, answer_of, guarded,
  receive, completes, acknowledges,
}

abbrev pub qos_ok : {P K : Type 0} → Answer P → Option (Handler P K)
qos_ok (Frame.basic_qos_ok resolver) = some (acknowledges resolver)
qos_ok _ = none

abbrev recover_ok : {P K : Type 0} → Answer P → Option (Handler P K)
recover_ok (Frame.basic_recover_ok resolver) =
    some (completes resolver Acks.on_basic_recover_ok_received)
recover_ok _ = none

abbrev cancel_ok : {P K : Type 0} → ShortString → Reply P → Option (Handler P K)
cancel_ok tag (Frame.basic_cancel_ok resolver) =
    some (completes resolver (Handlers.on_basic_cancel_ok_received tag))
cancel_ok tag _ = none

abbrev get_resolver : {P : Type 0} → Reply P → Option PromiseId
get_resolver (other (Frame.basic_get_ok resolver)) = some resolver
get_resolver _ = none

-- `consumer_of` is the consumer that a reply stores to recover it.
abbrev pub consume_ok :
    {P K : Type 0} → (P → Consumer P (Error K)) → ShortString → Answer P → Option (Handler P K)
consume_ok consumer_of tag (Frame.basic_consume_ok resolver queue no_ack arguments original) =
    some (
      Handlers.on_basic_consume_ok_received tag resolver queue no_ack
        (elim original [ none ↦ none | some stored ↦ some (consumer_of stored) ]))
consume_ok consumer_of tag _ = none

abbrev get_ok :
    {P K : Type 0}
    → P
    → (SwitchId → KillSwitch)
    → ℕ
    → Handlers.Envelope
    → ℕ
    → Answer P
    → Option (Handler P K)
get_ok default switch_of class_id e message_count (Frame.basic_get_ok resolver) =
    some (Handlers.on_basic_get_ok_received default switch_of class_id e message_count resolver)
get_ok default switch_of class_id e message_count _ = none

module _ {P K : Type 0} where
  unfoldable pub basic_qos : AmqpClass P → PromiseId → Channel P P P K → Sent P K
  basic_qos m promise ch = request connected "basic.qos" m (Frame.basic_qos_ok promise) promise ch

  unfoldable pub receive_basic_qos_ok : Protocol K → ℕ → ℕ → Handler P K
  receive_basic_qos_ok api class_id method_id =
      receive can_receive_messages "basic.qos-ok" api class_id method_id (answer_of qos_ok)

  unfoldable pub receive_basic_consume_ok :
      (P → Consumer P (Error K)) → Protocol K → ℕ → ℕ → ShortString → Handler P K
  receive_basic_consume_ok consumer_of api class_id method_id tag =
      receive can_receive_messages "basic.consume-ok" api class_id method_id
        (answer_of (consume_ok consumer_of tag))

  -- `class_id` and `method_id` are those of the made-up answer.
  unfoldable pub do_basic_consume :
      (P → Consumer P (Error K))
      → Protocol K
      → ℕ
      → ℕ
      → AmqpClass P
      → ShortString
      → ShortString
      → Bool
      → Bool
      → P
      → Option P
      → PromiseId
      → Channel P P P K
      → Sent P K
  do_basic_consume consumer_of api class_id method_id m queue tag no_ack nowait arguments original
        promise ch =
      request_nowait nowait (receive_basic_consume_ok consumer_of api class_id method_id tag)
        connected "basic.consume" m (Frame.basic_consume_ok promise queue no_ack arguments original)
        promise ch

  unfoldable pub receive_basic_cancel : ShortString → Bool → Handler P K
  receive_basic_cancel tag nowait =
      guarded can_receive_messages "basic.cancel" (Handlers.on_basic_cancel_received tag nowait)

  unfoldable pub basic_cancel_ok : AmqpClass P → PromiseId → Channel P P P K → Sent P K
  basic_cancel_ok m promise ch =
      notify connected "basic.cancel-ok" m (λ sent. (sent, [])) promise ch

  unfoldable pub receive_basic_cancel_ok : Protocol K → ℕ → ℕ → ShortString → Handler P K
  receive_basic_cancel_ok api class_id method_id tag =
      receive can_receive_messages "basic.cancel-ok" api class_id method_id (cancel_ok tag)

  canceled_at_once : Handler P K → PromiseId → Channel P P P K → List (Effect P K) → Sent P K
  canceled_at_once handle promise ch effects =
      let (ch', more, res) = handle ch in
      (ch', effects ++ more, elim res [ ok u ↦ ok promise | err e ↦ err e ])

  unfoldable pub basic_cancel :
      Protocol K → ℕ → ℕ → AmqpClass P → ShortString → Bool → PromiseId → Channel P P P K → Sent P K
  unfolding canceled_at_once
  basic_cancel api class_id method_id m tag nowait promise ch =
      if connected ch.status
      then (let reply : ExpectedReply P = record {
        reply = Frame.basic_cancel_ok promise;
        canceler = promise;
      } in
          let (ch', effects) =
            send_method_frame m promise (some reply) none (Acks.before_basic_cancel tag ch) in
          if nowait
          then canceled_at_once (receive_basic_cancel_ok api class_id method_id tag) promise ch'
              effects
          else (ch', effects, ok promise))
      else (ch, [], err (state_error "basic.cancel" ch.status))

  unfoldable pub receive_basic_return :
      P → (SwitchId → KillSwitch) → ℕ → ShortString → ShortString → ℕ → ShortString → Handler P K
  receive_basic_return default switch_of class_id exchange routing_key reply_code reply_text =
      guarded can_receive_messages "basic.return" (
        Handlers.on_basic_return_received default switch_of class_id exchange routing_key reply_code
          reply_text)

  unfoldable pub receive_basic_deliver :
      P → (SwitchId → KillSwitch) → ℕ → ShortString → Handlers.Envelope → Handler P K
  receive_basic_deliver default switch_of class_id tag e =
      guarded can_receive_messages "basic.deliver"
        (Handlers.on_basic_deliver_received default switch_of class_id tag e)

  -- The reply has the promise that is made here; an original one, if there is one, is the canceler.
  unfoldable pub do_basic_get :
      AmqpClass P → Option PromiseId → PromiseId → Channel P P P K → Sent P K
  do_basic_get m original promise ch =
      if connected ch.status
      then (let resolver : PromiseId = elim original [ none ↦ promise | some given ↦ given ] in
          let reply : ExpectedReply P = record {
            reply = other (Frame.basic_get_ok promise);
            canceler = resolver;
          } in
          let (ch', effects) = send_method_frame m resolver (some reply) none ch in
          (ch', effects, ok promise))
      else (ch, [], err (state_error "basic.get" ch.status))

  unfoldable pub receive_basic_get_ok :
      P → (SwitchId → KillSwitch) → Protocol K → ℕ → ℕ → Handlers.Envelope → ℕ → Handler P K
  receive_basic_get_ok default switch_of api class_id method_id e message_count =
      receive can_receive_messages "basic.get-ok" api class_id method_id
        (answer_of (get_ok default switch_of class_id e message_count))

  unfoldable pub receive_basic_get_empty : Protocol K → ℕ → ℕ → Handler P K
  receive_basic_get_empty api class_id method_id =
      guarded can_receive_messages "basic.get-empty"
        (Handlers.on_basic_get_empty_received api get_resolver class_id method_id)

  unfoldable pub basic_ack : AmqpClass P → Bool → ℕ → PromiseId → Channel P P P K → Sent P K
  basic_ack m multiple tag promise ch =
      notify connected "basic.ack" m (Acks.on_basic_ack_sent multiple tag) promise ch

  unfoldable pub receive_basic_ack : Protocol K → ℕ → ℕ → ℕ → Bool → Handler P K
  receive_basic_ack api class_id method_id tag multiple =
      guarded can_receive_messages "basic.ack"
        (Acks.on_basic_ack_received api class_id method_id tag multiple)

  unfoldable pub basic_reject : AmqpClass P → PromiseId → Channel P P P K → Sent P K
  basic_reject m promise ch = notify connected "basic.reject" m (λ sent. (sent, [])) promise ch

  unfoldable pub basic_recover_async : AmqpClass P → PromiseId → Channel P P P K → Sent P K
  basic_recover_async m promise ch =
      notify connected "basic.recover-async" m Acks.on_basic_recover_async_sent promise ch

  unfoldable pub basic_recover : AmqpClass P → PromiseId → Channel P P P K → Sent P K
  basic_recover m promise ch =
      request connected "basic.recover" m (Frame.basic_recover_ok promise) promise ch

  unfoldable pub receive_basic_recover_ok : Protocol K → ℕ → ℕ → Handler P K
  receive_basic_recover_ok api class_id method_id =
      receive can_receive_messages "basic.recover-ok" api class_id method_id (answer_of recover_ok)

  unfoldable pub basic_nack : AmqpClass P → Bool → ℕ → PromiseId → Channel P P P K → Sent P K
  basic_nack m multiple tag promise ch =
      notify connected "basic.nack" m (Acks.on_basic_nack_sent multiple tag) promise ch

  unfoldable pub receive_basic_nack : Protocol K → ℕ → ℕ → ℕ → Bool → Handler P K
  receive_basic_nack api class_id method_id tag multiple =
      guarded can_receive_messages "basic.nack"
        (Acks.on_basic_nack_received api class_id method_id tag multiple)
