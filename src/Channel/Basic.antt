-- ===== src/Channel/Basic.antt =====
-- src/channel.rs: the handlers of deliveries, `basic.get`, returned messages and consumers. The
-- channel's kill switch is known by its number: `switch_of` looks at the object behind it.
use lapin.Base.{ℕ, Bool, true, false, Option, none, some, List, [], ◌∷◌, ◌++◌, map, if◌then◌else◌}
use lapin.Frame.{PromiseId, ShortString, Reply}
use lapin.Acker.{ok, KillSwitch}
use lapin.Error.{Error}
use lapin.Message.{new, new_return}
use lapin.Receiver.{DeliveryCause, consume}
use lapin.ChannelStatus.{SwitchId, set_will_receive}
use lapin.Consumer.{Consumer}
use lapin.Consumer
use lapin.Consumers
use lapin.Content.{with_consumer}
use lapin.BasicGet
use lapin.Returned
use lapin.Frames.Replies.{find_expected_reply}
use lapin.Command.{spawn, basic_cancel_ok}
use lapin.Channel.{
  Protocol, Channel, Effect, of_consumers, of_contents, rpc, resolved, Done, contents,
  with_contents, handle_invalid_contents,
}

-- What a message is delivered with: its tag, where it was published to, and whether it was sent before.
pub record Envelope : Type 0 where
  pub delivery_tag : ℕ
  pub exchange : ShortString
  pub routing_key : ShortString
  pub redelivered : Bool

left_by :
    {P K : Type 0}
    → Option (Consumer P (Error K) × List (Consumer.Effect P (Error K)))
    → List (Effect P K)
left_by none = []
left_by (some (consumer, effects)) = map of_consumers effects

module _ {P O A K : Type 0} where
  -- The delivery is made with the error holder of its consumer; an unknown tag has no consumer to
  -- receive it, but the channel expects its content all the same.
  unfoldable pub on_basic_deliver_received :
      P → (SwitchId → KillSwitch) → ℕ → ShortString → Envelope → Channel P O A K → Done P O A K
  on_basic_deliver_received default switch_of class_id tag e ch =
      let (status, killswitch) = set_will_receive class_id (consume tag) ch.status in
      let ch' : Channel P O A K = record ch { status = status } in
      let (c, effects) =
        with_consumer tag
          (λ consumer. (
            Consumer.start_new_delivery
                (new default ch.id e.delivery_tag e.exchange e.routing_key e.redelivered true
                  (some consumer.error) (switch_of killswitch))
                consumer,
            [],
          ))
          (contents ch') in
      (with_contents c ch', map of_contents effects, ok tt)

  unfoldable pub on_basic_get_ok_received :
      P → (SwitchId → KillSwitch) → ℕ → Envelope → ℕ → PromiseId → Channel P O A K → Done P O A K
  on_basic_get_ok_received default switch_of class_id e message_count resolver ch =
      let (status, killswitch) = set_will_receive class_id DeliveryCause.get ch.status in
      (
        record ch {
          status = status;
          basic_get_delivery =
              BasicGet.start_new_delivery
                (record {
                  delivery =
                      new default ch.id e.delivery_tag e.exchange e.routing_key e.redelivered true
                        none (switch_of killswitch);
                  message_count = message_count;
                })
                resolver ch.basic_get_delivery;
        },
        [],
        ok tt,
      )

  unfoldable pub on_basic_return_received :
      P
      → (SwitchId → KillSwitch)
      → ℕ
      → ShortString
      → ShortString
      → ℕ
      → ShortString
      → Channel P O A K
      → Done P O A K
  on_basic_return_received default switch_of class_id exchange routing_key reply_code reply_text
        ch =
      let (status, killswitch) = set_will_receive class_id DeliveryCause.return ch.status in
      (
        record ch {
          status = status;
          acknowledgements = record ch.acknowledgements {
            returned =
                Returned.start_new_delivery
                  (new_return default exchange routing_key reply_code reply_text
                    (switch_of killswitch))
                  ch.acknowledgements.returned;
          };
        },
        [],
        ok tt,
      )

  -- `get_resolver` is the promise that the reply of a `basic.get` carries.
  unfoldable pub on_basic_get_empty_received :
      Protocol K → (Reply P → Option PromiseId) → ℕ → ℕ → Channel P O A K → Done P O A K
  on_basic_get_empty_received api get_resolver class_id method_id ch =
      let (reply, frames) =
        find_expected_reply ch.id
          (λ r. elim (get_resolver r.reply) [ none ↦ false | some resolver ↦ true ]) ch.frames in
      let ch' : Channel P O A K = record ch { frames = frames } in
      let found : Option PromiseId = elim reply [ none ↦ none | some r ↦ get_resolver r ] in
      elim found [
        | some resolver ↦ (ch', resolved resolver ∷ [], ok tt)
        | none ↦ handle_invalid_contents api class_id method_id ch'
      ]

  -- A consumer that is recovered is registered again, in place of a new one.
  unfoldable pub on_basic_consume_ok_received :
      ShortString
      → PromiseId
      → ShortString
      → Bool
      → Option (Consumer P (Error K))
      → Channel P O A K
      → Done P O A K
  on_basic_consume_ok_received tag resolver queue no_ack original ch =
      let consumer : Consumer P (Error K) = elim original [
        | none ↦ Consumer.new tag queue no_ack
        | some c ↦ c
      ] in
      (
        record ch { consumers = Consumers.register tag consumer ch.consumers },
        resolved resolver ∷ [],
        ok tt,
      )

  unfoldable pub deregister_consumer :
      ShortString → Channel P O A K → Channel P O A K × List (Effect P K)
  unfolding left_by
  deregister_consumer tag ch =
      let (consumers, left) = Consumers.deregister tag ch.consumers in
      (record ch { consumers = consumers }, left_by left)

  unfoldable pub on_basic_cancel_received : ShortString → Bool → Channel P O A K → Done P O A K
  unfolding deregister_consumer
  on_basic_cancel_received tag nowait ch =
      let (ch', effects) = deregister_consumer tag ch in
      (ch', effects ++ (if nowait then [] else rpc (spawn (basic_cancel_ok tag)) ∷ []), ok tt)

  unfoldable pub on_basic_cancel_ok_received : ShortString → Channel P O A K → Done P O A K
  unfolding deregister_consumer
  on_basic_cancel_ok_received tag ch =
      let (ch', effects) = deregister_consumer tag ch in (ch', effects, ok tt)
