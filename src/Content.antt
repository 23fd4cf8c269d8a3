-- ===== src/Content.antt =====
-- src/channel.rs, `handle_content_header_frame` and `handle_body_frame`, with the lookups of
-- src/consumers.rs: where a channel takes the header and the bodies of a content. Each handler takes
-- what it asks of the consumer of a tag, of the `basic.get` in progress or of the returned message.
pub mod Bodies
pub mod Pieces
pub mod Delivered
use lapin.Base.{ℕ, Bool, true, false, Option, none, some, List, [], ◌∷◌, ◌++◌, map, length}
use lapin.Base.Dict
use lapin.Frame.{ShortString}
use lapin.Message.{Delivery, BasicGetMessage}
use lapin.Receiver.{
  DeliveryCause, consume, ChannelReceiverStates, HeaderOutcome, BodyOutcome, set_content_length,
  receive, set_will_receive,
}
use lapin.Consumer.{Consumer}
use lapin.Consumer
use lapin.BasicGet.{InnerData, Resolved}
use lapin.BasicGet
use lapin.Returned.{ReturnedMessages}
use lapin.Returned

-- The part of a channel that contents go to.
pub record Contents (P E : Type 0) : Type 0 where
  pub receiver_state : ChannelReceiverStates
  pub confirm : Bool
  pub consumers : List (ShortString × Consumer P E)
  pub basic_get_delivery : Option (InnerData P E)
  pub returned_messages : ReturnedMessages P E

pub data Effect (P E : Type 0) : Type 0 where
  of_consumer : ShortString → Consumer.Effect P E → Effect P E
  of_get : Resolved P E → Effect P E

-- What the handler comes to: a violation closes the connection, with a frame error or an
-- unexpected frame error.
pub data Outcome : Type 0 where
  ok frame_error unexpected_frame : Outcome

module _ {P E : Type 0} where
  -- `if let Some(consumer) = get(tag)`: a message for an unknown tag is dropped.
  unfoldable pub with_consumer :
      ShortString
      → (Consumer P E → Consumer P E × List (Consumer.Effect P E))
      → Contents P E
      → Contents P E × List (Effect P E)
  with_consumer tag f c = elim (Dict.get Dict.String_discrete tag c.consumers) [
    | none ↦ (c, [])
    | some consumer ↦
        let (consumer', effects) = f consumer in
        (
          record c { consumers = Dict.insert Dict.String_discrete tag consumer' c.consumers },
          map (of_consumer tag) effects,
        )
  ]

  header_to : DeliveryCause → Bool → ℕ → P → Contents P E → Contents P E × List (Effect P E)
  header_to (consume tag) confirm_mode size properties c =
      with_consumer tag (Consumer.handle_content_header_frame size properties) c
  header_to DeliveryCause.get confirm_mode size properties c =
      let (inner, resolved) =
        BasicGet.handle_content_header_frame size properties c.basic_get_delivery in
      (record c { basic_get_delivery = inner }, map of_get resolved)
  header_to DeliveryCause.return confirm_mode size properties c = (
    record c {
      returned_messages =
          Returned.handle_content_header_frame size properties confirm_mode c.returned_messages;
    },
    [],
  )

  body_to : DeliveryCause → Bool → ℕ → List ℕ → Contents P E → Contents P E × List (Effect P E)
  body_to (consume tag) confirm_mode remaining payload c =
      with_consumer tag (Consumer.handle_body_frame remaining payload) c
  body_to DeliveryCause.get confirm_mode remaining payload c =
      let (inner, resolved) = BasicGet.handle_body_frame remaining payload c.basic_get_delivery in
      (record c { basic_get_delivery = inner }, map of_get resolved)
  body_to DeliveryCause.return confirm_mode remaining payload c = (
    record c {
      returned_messages =
          Returned.handle_body_frame remaining payload confirm_mode c.returned_messages;
    },
    [],
  )

  header_outcome : HeaderOutcome → ℕ → P → Contents P E → Contents P E × List (Effect P E) × Outcome
  unfolding header_to
  header_outcome (HeaderOutcome.handled cause confirm_mode) size properties c =
      let (c', effects) = header_to cause confirm_mode size properties c in (c', effects, ok)
  header_outcome (HeaderOutcome.invalid_class expected) size properties c = (c, [], frame_error)
  header_outcome HeaderOutcome.unexpected size properties c = (c, [], unexpected_frame)

  unfoldable pub handle_content_header_frame :
      ℕ → ℕ → P → Contents P E → Contents P E × List (Effect P E) × Outcome
  unfolding header_outcome
  handle_content_header_frame class_id size properties c =
      let (states, outcome) = set_content_length class_id size c.confirm c.receiver_state in
      header_outcome outcome size properties (record c { receiver_state = states })

  body_outcome : BodyOutcome → List ℕ → Contents P E → Contents P E × List (Effect P E) × Outcome
  unfolding body_to
  body_outcome (BodyOutcome.handled cause remaining confirm_mode) payload c =
      let (c', effects) = body_to cause confirm_mode remaining payload c in (c', effects, ok)
  body_outcome (BodyOutcome.too_large expected) payload c = (c, [], unexpected_frame)
  body_outcome BodyOutcome.unexpected payload c = (c, [], unexpected_frame)

  unfoldable pub handle_body_frame :
      List ℕ → Contents P E → Contents P E × List (Effect P E) × Outcome
  unfolding body_outcome
  handle_body_frame payload c =
      let (states, outcome) = receive (length payload) c.confirm c.receiver_state in
      body_outcome outcome payload (record c { receiver_state = states })

  -- `on_basic_deliver_received`: the content that is announced goes to the consumer of the tag.
  -- The delivery, made with the consumer's error holder, is given.
  unfoldable pub on_basic_deliver_received :
      ℕ
      → ShortString
      → (Consumer P E → Delivery P E)
      → Contents P E
      → Contents P E × List (Effect P E)
  unfolding with_consumer
  on_basic_deliver_received class_id tag delivery c =
      with_consumer tag (λ consumer. (Consumer.start_new_delivery (delivery consumer) consumer, []))
        (record c { receiver_state = set_will_receive class_id (consume tag) c.receiver_state })
