-- ===== src/Content/Pieces.antt =====
-- A header and the bodies that a payload is cut into, as a channel's consumer takes them.
use lapin.Base.{
  ℕ, zero, suc, ◌≤◌, ◌<◌, ◌≡◌, refl, ap, ◌∙◌, subst, Bool, some, List, [], ◌∷◌, ◌++◌, map, arith,
  length, append-nil, All, length-append, max, ◌-◌,
}
use lapin.Base.Dict
use lapin.Frame.{ShortString}
use lapin.Message.{Delivery}
use lapin.Receiver.{
  will_receive_content, receiving_content, consume, ChannelReceiverStates, HeaderOutcome,
  set_content_length,
}
use lapin.Consumer.{Consumer}
use lapin.Consumer
use lapin.Payload.{chunks, chunk_size}
use lapin.Payload.Chunks.{concat, chunks_lem}
use lapin.Content.{Contents, of_consumer, Outcome, with_consumer, handle_content_header_frame}
use lapin.Content.Bodies.{
  receive_bodies, handed_over, extended, all_ok, after_body, after_body_pos, Delivers,
  get-insert_self, bodies_delivered,
}

header_received :
    (class_id n : ℕ) (tag : ShortString) (confirm_mode : Bool) (states : ChannelReceiverStates)
    → set_content_length class_id n confirm_mode
        (will_receive_content class_id (consume tag) ∷ states)
      ≡ (after_body n tag states, HeaderOutcome.handled (consume tag) confirm_mode)
unfolding set_content_length after_body
header_received class_id zero tag confirm_mode states = ground arith
header_received class_id (suc n) tag confirm_mode states = ground arith

All-fst :
    (n : ℕ) (bs : List (List ℕ))
    → All (λ c. (0 < length c) × (length c ≤ n)) bs
    → All (λ c. 0 < length c) bs
All-fst n [] h = tt
All-fst n (b ∷ bs) h = (h.0.0, All-fst n bs h.1)

module _ {P E : Type 0} where
  abbrev pub with_header : P → Delivery P E → Delivery P E
  with_header properties d = record d { properties = properties }

  consumer_header :
      (size : ℕ) (properties : P) (consumer : Consumer P E) (d : Delivery P E)
      → consumer.current_message ≡ some d
      → 0 < size
      → Consumer.handle_content_header_frame size properties consumer
        ≡ (record consumer { current_message = some (with_header properties d) }, [])
  unfolding Consumer.handle_content_header_frame
  consumer_header size properties consumer d e h = ground arith

  consumer_header_empty :
      (properties : P) (consumer : Consumer P E) (d : Delivery P E)
      → consumer.current_message ≡ some d
      → Consumer.handle_content_header_frame 0 properties consumer
        ≡ handed_over (with_header properties d) consumer
  unfolding Consumer.handle_content_header_frame
  consumer_header_empty properties consumer d e = ground arith

  header_step :
      (class_id size : ℕ) (properties : P) (tag : ShortString) (states : ChannelReceiverStates)
      (consumer : Consumer P E) (c : Contents P E)
      → c.receiver_state ≡ will_receive_content class_id (consume tag) ∷ states
      → Dict.get Dict.String_discrete tag c.consumers ≡ some consumer
      → handle_content_header_frame class_id size properties c ≡ (
        record c {
          receiver_state = after_body size tag states;
          consumers =
              Dict.insert Dict.String_discrete tag
                (Consumer.handle_content_header_frame size properties consumer).0
                c.consumers;
        },
        map (of_consumer tag) (Consumer.handle_content_header_frame size properties consumer).1,
        Outcome.ok,
      )
  unfolding handle_content_header_frame with_consumer
  header_step class_id size properties tag states consumer c r g =
      ground (arith, header_received class_id size tag c.confirm states)

  -- The header announces the payload's size and every body is accepted; what is delivered is the
  -- message in progress, with the header's properties and with the payload behind its data.
  abbrev pub Arrives :
      ℕ
      → List (List ℕ)
      → List ℕ
      → P
      → ShortString
      → ShortString
      → ChannelReceiverStates
      → Consumer P E
      → Delivery P E
      → Contents P E
      → Type 0
  Arrives class_id bodies payload properties tag j states consumer d c =
      let (begun, effects, outcome) =
        handle_content_header_frame class_id (length payload) properties c in
      let (done, more, outcomes) = receive_bodies bodies begun in
      Delivers tag j states (extended (with_header properties d) payload) consumer c
        (done, effects ++ more)
      × (outcome ≡ Outcome.ok)
      × (outcomes ≡ all_ok bodies)

  pieces_delivered :
      (class_id : ℕ) (bs : List (List ℕ)) (properties : P) (tag j : ShortString)
      (states : ChannelReceiverStates) (consumer : Consumer P E) (d : Delivery P E)
      (c : Contents P E)
      → All (λ b. 0 < length b) bs
      → c.receiver_state ≡ will_receive_content class_id (consume tag) ∷ states
      → Dict.get Dict.String_discrete tag c.consumers ≡ some consumer
      → consumer.current_message ≡ some d
      → Arrives class_id bs (concat bs) properties tag j states consumer d c
  unfolding receive_bodies after_body
  pieces_delivered class_id [] properties tag j states consumer d c pos r g m = ground (
    arith,
    header_step class_id 0 properties tag states consumer c r g,
    consumer_header_empty properties consumer d m,
    append-nil d.data_bytes,
    append-nil (map (of_consumer tag) (handed_over (with_header properties d) consumer).1),
    Dict.get-insert Dict.String_discrete tag j (handed_over (with_header properties d) consumer).0
        c.consumers,
  )
  pieces_delivered class_id (b ∷ bs) properties tag j states consumer d c pos r g m =
      let size = length (concat (b ∷ bs)) in
      let split = length-append b (concat bs) in
      let d' = with_header properties d in
      let consumer' = record consumer { current_message = some d' } in
      let c' = record c {
        receiver_state = after_body size tag states;
        consumers = Dict.insert Dict.String_discrete tag consumer' c.consumers;
      } in
      ground (
        arith,
        header_step class_id size properties tag states consumer c r g,
        consumer_header size properties consumer d m (omega (arith, split)),
        Dict.get-insert Dict.String_discrete tag j consumer' c.consumers,
        bodies_delivered tag j b bs states consumer' d' c' pos.1
            (after_body_pos size tag states (omega (arith, split))
              ∙ ap (λ n. receiving_content (consume tag) n ∷ states) split)
            (get-insert_self tag consumer' c.consumers) refl,
      )

  -- What `chunks` makes of a payload arrives.
  pub chunks_delivered :
      (class_id frame_max : ℕ) (payload : List ℕ) (properties : P) (tag j : ShortString)
      (states : ChannelReceiverStates) (consumer : Consumer P E) (d : Delivery P E)
      (c : Contents P E)
      → c.receiver_state ≡ will_receive_content class_id (consume tag) ∷ states
      → Dict.get Dict.String_discrete tag c.consumers ≡ some consumer
      → consumer.current_message ≡ some d
      → Arrives class_id
          (chunks (chunk_size frame_max) payload)
          payload
          properties
          tag
          j
          states
          consumer
          d
          c
  chunks_delivered class_id frame_max payload properties tag j states consumer d c r g m =
      let (whole, sizes) = chunks_lem frame_max payload in
      subst
        (λ bytes.
          Arrives class_id (chunks (chunk_size frame_max) payload) bytes properties tag j states
            consumer d c)
        whole
        (pieces_delivered class_id (chunks (chunk_size frame_max) payload) properties tag j states
          consumer d c
          (All-fst (max (frame_max - 8) 1) (chunks (chunk_size frame_max) payload) sizes) r g m)
