-- ===== src/Confirms.antt =====
-- src/acknowledgement.rs: the publisher confirms that are pending on a channel. The promises that
-- `Promise::new` makes are fresh numbers, which the caller gives.
pub mod Tags
mod Pending
pub mod Settle
pub mod Failure
use lapin.Base.{
  ℕ, zero, suc, ◌^◌, Bool, true, false, Option, none, some, List, [], ◌∷◌, ◌++◌, ◌==◌, leb,
  ℕ_discrete, retain, if◌then◌else◌,
}
use lapin.Base.Dict
use lapin.Sequence.{IdSequence}
use lapin.Sequence
use lapin.Frame.{PromiseId}
use lapin.Returned.{
  Confirmation, ack, nack, ReturnedMessages, get_waiting_message, clear_dropped_confirms,
}

-- A delivery tag is a `u64`.
abbrev pub tag_size : ℕ
tag_size = 2 ^ 64

-- The resolver of a confirm, and that of the promise which `wait_for_confirms` awaits.
abbrev pub Resolvers : Type 0
Resolvers = PromiseId × PromiseId

-- The channel's `ReturnedMessages` is shared with it, and stands here as the field `returned`.
pub record Acknowledgements (P E : Type 0) : Type 0 where
  pub delivery_tag : IdSequence
  pub last : Option PromiseId
  pub pending : List (ℕ × Resolvers)
  pub returned : ReturnedMessages P E

-- The completions of confirms, and of the promises that `wait_for_confirms` awaits.
pub data Effect (P E : Type 0) : Type 0 where
  confirmed : PromiseId → Confirmation P E → Effect P E
  confirm_rejected : PromiseId → E → Effect P E
  wait_resolved : PromiseId → Effect P E
  wait_rejected : PromiseId → E → Effect P E

-- `Some(delivery_tag) == self.delivery_tag.current()`.
abbrev pub is_current : ℕ → IdSequence → Bool
is_current tag s = elim (Sequence.current s) [ none ↦ false | some current ↦ tag == current ]

-- The error for a tag that is not pending; its text, with the channel's id, is not modelled.
pub data AmqpResult : Type 0 where
  ok : AmqpResult
  precondition_failed : Bool → ℕ → AmqpResult

-- The last error, if there is one.
abbrev pub later : AmqpResult → AmqpResult → AmqpResult
later first ok = first
later first (precondition_failed success tag) = precondition_failed success tag

module _ {P E : Type 0} where
  unfoldable pub new : ReturnedMessages P E → Acknowledgements P E
  new returned = record {
    delivery_tag = Sequence.new false;
    last = none;
    pending = [];
    returned = returned;
  }

  -- The confirm's tag goes with it on the wire: it counts the publishes.
  unfoldable pub register_pending :
      PromiseId → PromiseId → Acknowledgements P E → Acknowledgements P E × PromiseId
  register_pending promise err_promise a =
      let (tag, sequence) = Sequence.next tag_size a.delivery_tag in
      (
        record a {
          delivery_tag = sequence;
          last = some err_promise;
          pending = Dict.insert ℕ_discrete tag (promise, err_promise) a.pending;
        },
        promise,
      )

  unfoldable pub get_last_pending : Acknowledgements P E → Acknowledgements P E × Option PromiseId
  get_last_pending a = (record a { last = none }, a.last)

  unfoldable pub complete_pending :
      Bool → ℕ → Resolvers → Acknowledgements P E → Acknowledgements P E × List (Effect P E)
  complete_pending success tag resolvers a =
      let (message, returned) = get_waiting_message a.returned in
      (
        record a { returned = returned },
        confirmed resolvers.0 (if success then ack message else nack message)
            ∷ (if is_current tag a.delivery_tag then wait_resolved resolvers.1 ∷ [] else []),
      )

  complete_each :
      Bool → List (ℕ × Resolvers) → Acknowledgements P E → Acknowledgements P E × List (Effect P E)
  complete_each success [] a = (a, [])
  complete_each success ((tag, resolvers) ∷ m) a =
      let (a', effects) = complete_pending success tag resolvers a in
      let (last, more) = complete_each success m a' in (last, effects ++ more)

  unfoldable pub drop_all : Bool → Acknowledgements P E → Acknowledgements P E × List (Effect P E)
  unfolding complete_each
  drop_all success a = complete_each success a.pending (record a { pending = [] })

  unfoldable pub drop_pending :
      ℕ → Bool → Acknowledgements P E → Acknowledgements P E × List (Effect P E) × AmqpResult
  drop_pending tag success a = elim (Dict.get ℕ_discrete tag a.pending) [
    | none ↦ (a, [], precondition_failed success tag)
    | some resolvers ↦
        let rest = record a { pending = Dict.remove ℕ_discrete tag a.pending } in
        let (a', effects) = complete_pending success tag resolvers rest in (a', effects, ok)
  ]

  drop_each :
      List ℕ
      → Bool
      → AmqpResult
      → Acknowledgements P E
      → Acknowledgements P E × List (Effect P E) × AmqpResult
  drop_each [] success res a = (a, [], res)
  drop_each (tag ∷ tags) success res a =
      let (a', effects, one) = drop_pending tag success a in
      let (last, more, all) = drop_each tags success (later res one) a' in
      (last, effects ++ more, all)

  unfoldable pub complete_pending_before :
      ℕ → Bool → Acknowledgements P E → Acknowledgements P E × List (Effect P E) × AmqpResult
  unfolding drop_each
  complete_pending_before tag success a =
      drop_each (retain (λ t. leb t tag) (Dict.keys a.pending)) success ok a

  reject_each : List (ℕ × Resolvers) → IdSequence → E → List (Effect P E)
  reject_each [] sequence error = []
  reject_each ((tag, resolvers) ∷ m) sequence error =
      let more = reject_each m sequence error in
      confirm_rejected resolvers.0 error
      ∷ (if is_current tag sequence then wait_rejected resolvers.1 error ∷ more else more)

  unfoldable pub on_channel_error :
      E → Acknowledgements P E → Acknowledgements P E × List (Effect P E)
  unfolding reject_each
  on_channel_error error a = (
    record a { pending = []; returned = clear_dropped_confirms a.returned },
    reject_each a.pending a.delivery_tag error,
  )

  unfoldable pub reset : E → Acknowledgements P E → Acknowledgements P E × List (Effect P E)
  unfolding on_channel_error
  reset error a = on_channel_error error (record a { delivery_tag = Sequence.new false })
