-- ===== src/Content/Bodies.antt =====
-- The bodies of a message reach its consumer.
use lapin.Base.{
  ℕ, zero, suc, ◌+◌, ◌<◌, ◌≡◌, refl, ap, ◌∙◌, ite, Bool, none, some, List, [], ◌∷◌, ◌++◌, map,
  arith, length, append_assoc, append-nil, All, length-append,
}
use lapin.Base.Dict
use lapin.Frame.{ShortString}
use lapin.Acker.{ok}
use lapin.Message.{Delivery}
use lapin.Receiver.{receiving_content, consume, ChannelReceiverStates, BodyOutcome, receive}
use lapin.Consumer.{Consumer, dispatch}
use lapin.Consumer
use lapin.Payload.Chunks.{concat}
use lapin.Content.{Contents, Effect, of_consumer, Outcome, with_consumer, handle_body_frame}

abbrev pub all_ok : List (List ℕ) → List Outcome
all_ok = map (λ b. Outcome.ok)

unfoldable pub after_body : ℕ → ShortString → ChannelReceiverStates → ChannelReceiverStates
after_body zero tag states = states
after_body (suc n) tag states = receiving_content (consume tag) (suc n) ∷ states

pub after_body_pos :
    (n : ℕ) (tag : ShortString) (states : ChannelReceiverStates)
    → 0 < n
    → after_body n tag states ≡ receiving_content (consume tag) n ∷ states
unfolding after_body
after_body_pos zero tag states h = absurd (omega arith)
after_body_pos (suc n) tag states h = refl

receive_body :
    (n rest : ℕ) (tag : ShortString) (confirm_mode : Bool) (states : ChannelReceiverStates)
    → receive n confirm_mode (receiving_content (consume tag) (n + rest) ∷ states)
      ≡ (after_body rest tag states, BodyOutcome.handled (consume tag) rest confirm_mode)
unfolding receive after_body
receive_body n zero tag confirm_mode states = ground arith
receive_body n (suc rest) tag confirm_mode states = ground arith

module _ {P E : Type 0} where
  -- The bodies, one after the other: the last state, all effects, and the outcome of each.
  unfoldable pub receive_bodies :
      List (List ℕ) → Contents P E → Contents P E × List (Effect P E) × List Outcome
  receive_bodies [] c = (c, [], [])
  receive_bodies (b ∷ bs) c =
      let (c', effects, outcome) = handle_body_frame b c in
      let (last, more, outcomes) = receive_bodies bs c' in
      (last, effects ++ more, outcome ∷ outcomes)

  -- The message in progress is handed over, and the consumer has none.
  abbrev pub handed_over : Delivery P E → Consumer P E → Consumer P E × List (Consumer.Effect P E)
  handed_over d consumer =
      dispatch (ok (some d)) consumer.status.delegate (record consumer { current_message = none })

  abbrev pub extended : Delivery P E → List ℕ → Delivery P E
  extended d bytes = record d { data_bytes = d.data_bytes ++ bytes }

  consumer_body :
      (remaining : ℕ) (payload : List ℕ) (consumer : Consumer P E) (d : Delivery P E)
      → consumer.current_message ≡ some d
      → 0 < remaining
      → Consumer.handle_body_frame remaining payload consumer
        ≡ (record consumer { current_message = some (extended d payload) }, [])
  unfolding Consumer.handle_body_frame
  consumer_body remaining payload consumer d e h = ground arith

  consumer_last :
      (payload : List ℕ) (consumer : Consumer P E) (d : Delivery P E)
      → consumer.current_message ≡ some d
      → Consumer.handle_body_frame 0 payload consumer ≡ handed_over (extended d payload) consumer
  unfolding Consumer.handle_body_frame
  consumer_last payload consumer d e = ground arith

  body_step :
      (tag : ShortString) (payload : List ℕ) (rest : ℕ) (states : ChannelReceiverStates)
      (consumer : Consumer P E) (c : Contents P E)
      → c.receiver_state ≡ receiving_content (consume tag) (length payload + rest) ∷ states
      → Dict.get Dict.String_discrete tag c.consumers ≡ some consumer
      → handle_body_frame payload c ≡ (
        record c {
          receiver_state = after_body rest tag states;
          consumers =
              Dict.insert Dict.String_discrete tag
                (Consumer.handle_body_frame rest payload consumer).0
                c.consumers;
        },
        map (of_consumer tag) (Consumer.handle_body_frame rest payload consumer).1,
        Outcome.ok,
      )
  unfolding handle_body_frame with_consumer
  body_step tag payload rest states consumer c r g =
      ground (arith, receive_body (length payload) rest tag c.confirm states)

  -- What a message's delivery comes to: the receiver is left as it was behind the message, the
  -- consumer of the tag and no other is changed, and the effects are those of handing it over.
  abbrev pub Delivers :
      ShortString
      → ShortString
      → ChannelReceiverStates
      → Delivery P E
      → Consumer P E
      → Contents P E
      → Contents P E × List (Effect P E)
      → Type 0
  Delivers tag j states d consumer c r =
      (r.0.receiver_state ≡ states)
      × (Dict.get Dict.String_discrete j r.0.consumers
          ≡ ite (Dict.String_discrete tag j) (some (handed_over d consumer).0)
              (Dict.get Dict.String_discrete j c.consumers))
      × (r.1 ≡ map (of_consumer tag) (handed_over d consumer).1)

  extended_twice :
      (d : Delivery P E) (x y : List ℕ) (consumer : Consumer P E)
      → handed_over
          (extended (extended d x) y)
          (record consumer { current_message = some (extended d x) })
        ≡ handed_over (extended d (x ++ y)) consumer
  extended_twice d x y consumer =
      ap (λ bytes. handed_over (record d { data_bytes = bytes }) consumer)
        (append_assoc d.data_bytes x y)

  pub get-insert_self :
      (tag : ShortString) (consumer : Consumer P E) (m : List (ShortString × Consumer P E))
      → Dict.get Dict.String_discrete tag (Dict.insert Dict.String_discrete tag consumer m)
        ≡ some consumer
  get-insert_self tag consumer m =
      ground (arith, Dict.get-insert Dict.String_discrete tag tag consumer m)

  pub bodies_delivered :
      (tag j : ShortString) (b : List ℕ) (bs : List (List ℕ)) (states : ChannelReceiverStates)
      (consumer : Consumer P E) (d : Delivery P E) (c : Contents P E)
      → All (λ x. 0 < length x) bs
      → c.receiver_state ≡ receiving_content (consume tag) (length b + length (concat bs)) ∷ states
      → Dict.get Dict.String_discrete tag c.consumers ≡ some consumer
      → consumer.current_message ≡ some d
      → let (c', effects, outcomes) = receive_bodies (b ∷ bs) c in
        Delivers tag j states (extended d (concat (b ∷ bs))) consumer c (c', effects)
        × (outcomes ≡ all_ok (b ∷ bs))
  unfolding receive_bodies after_body
  bodies_delivered tag j b [] states consumer d c pos r g m = ground (
    arith,
    body_step tag b 0 states consumer c r g,
    consumer_last b consumer d m,
    Dict.get-insert Dict.String_discrete tag j (handed_over (extended d b) consumer).0 c.consumers,
    append-nil b,
    append-nil (map (of_consumer tag) (handed_over (extended d b) consumer).1),
  )
  bodies_delivered tag j b (b' ∷ bs) states consumer d c pos r g m =
      let rest = concat (b' ∷ bs) in
      let d' = extended d b in
      let consumer' = record consumer { current_message = some d' } in
      let after =
        after_body_pos (length rest) tag states (omega (arith, length-append b' (concat bs))) in
      let c' = record c {
        receiver_state = after_body (length rest) tag states;
        consumers = Dict.insert Dict.String_discrete tag consumer' c.consumers;
      } in
      ground (
        arith,
        body_step tag b (length rest) states consumer c r g,
        consumer_body (length rest) b consumer d m (omega (arith, length-append b' (concat bs))),
        Dict.get-insert Dict.String_discrete tag j consumer' c.consumers,
        extended_twice d b rest consumer,
        bodies_delivered tag j b' bs states consumer' d' c' pos.1
            (after
              ∙ ap (λ n. receiving_content (consume tag) n ∷ states) (length-append b' (concat bs)))
            (get-insert_self tag consumer' c.consumers) refl,
      )
