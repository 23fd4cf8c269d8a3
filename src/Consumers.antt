-- ===== src/Consumers.antt =====
-- src/consumers.rs: the consumers of a channel by tag, and the stream of src/consumer.rs. A consumer
-- that leaves the map lives on in the hands of the program, so it is part of the result. The order
-- of a drained map is the list's here, where a hash map leaves it open.
pub mod Ended
use lapin.Base.{ℕ, zero, suc, Bool, Option, none, some, List, [], ◌∷◌, ◌++◌, map, if◌then◌else◌}
use lapin.Base.Dict
use lapin.Frame.{ShortString}
use lapin.Acker.{Result, ok, err}
use lapin.Message.{Delivery}
use lapin.Consumer.{Consumer, Effect, next_delivery}
use lapin.Consumer

abbrev pub Consumers : Type 0 → Type 0 → Type 0
Consumers P E = List (ShortString × Consumer P E)

-- What a poll of the stream comes to; `ended` is `Ready(None)`.
pub data Poll (P E : Type 0) : Type 0 where
  pending ended : Poll P E
  item : Result E (Delivery P E) → Poll P E

module _ {P E : Type 0} where
  unfoldable pub register : ShortString → Consumer P E → Consumers P E → Consumers P E
  register tag consumer cs = Dict.insert Dict.String_discrete tag consumer cs

  -- The consumer that leaves, canceled, if there is one.
  unfoldable pub deregister :
      ShortString → Consumers P E → Consumers P E × Option (Consumer P E × List (Effect P E))
  deregister tag cs = elim (Dict.get Dict.String_discrete tag cs) [
    | none ↦ (Dict.remove Dict.String_discrete tag cs, none)
    | some consumer ↦ (Dict.remove Dict.String_discrete tag cs, some (Consumer.cancel consumer))
  ]

  unfoldable pub start_cancel_one : ShortString → Consumers P E → Consumers P E
  start_cancel_one tag cs = elim (Dict.get Dict.String_discrete tag cs) [
    | none ↦ cs
    | some consumer ↦ Dict.insert Dict.String_discrete tag (Consumer.start_cancel consumer) cs
  ]

  unfoldable pub start_cancel : Consumers P E → Consumers P E
  start_cancel [] = []
  start_cancel ((tag, consumer) ∷ cs) = (tag, Consumer.start_cancel consumer) ∷ start_cancel cs

  unfoldable pub drop_prefetched_messages : Consumers P E → Consumers P E × List (Effect P E)
  drop_prefetched_messages [] = ([], [])
  drop_prefetched_messages ((tag, consumer) ∷ cs) =
      let (consumer', effects) = Consumer.drop_prefetched_messages consumer in
      let (cs', more) = drop_prefetched_messages cs in ((tag, consumer') ∷ cs', effects ++ more)

  -- `cancel` and `error` leave an empty map behind: here are the consumers drained from it.
  unfoldable pub cancel : Consumers P E → List (Consumer P E) × List (Effect P E)
  cancel [] = ([], [])
  cancel ((tag, consumer) ∷ cs) =
      let (consumer', effects) = Consumer.cancel consumer in
      let (drained, more) = cancel cs in (consumer' ∷ drained, effects ++ more)

  -- A consumer that will be recovered stays active.
  unfoldable pub error_one : E → Bool → Consumer P E → Consumer P E × List (Effect P E)
  error_one e recover consumer =
      if recover then Consumer.send_error e consumer else Consumer.set_error e consumer

  unfoldable pub error : E → Bool → Consumers P E → List (Consumer P E) × List (Effect P E)
  error e recover [] = ([], [])
  error e recover ((tag, consumer) ∷ cs) =
      let (consumer', effects) = error_one e recover consumer in
      let (drained, more) = error e recover cs in (consumer' ∷ drained, effects ++ more)

  unfoldable pub poll_of : Option (Consumer.DeliveryResult P E) → Poll P E
  poll_of none = pending
  poll_of (some (ok (some delivery))) = item (ok delivery)
  poll_of (some (ok none)) = ended
  poll_of (some (err e)) = item (err e)

  unfoldable pub poll_next : Consumer P E → Poll P E × Consumer P E
  poll_next c = let (delivery, c') = next_delivery c in (poll_of delivery, c')

  -- What a number of polls sees.
  unfoldable pub polls : ℕ → Consumer P E → List (Poll P E)
  polls zero c = []
  polls (suc n) c = let (seen, c') = poll_next c in seen ∷ polls n c'
