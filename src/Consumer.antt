-- ===== src/Consumer.antt =====
-- src/consumer.rs: the message that a consumer is receiving, and the deliveries that its stream or
-- its delegate gets. Waking the stream's task is not modelled: a poll sees what is queued.
pub mod Delegate
use lapin.Base.{ℕ, Bool, true, false, Option, none, some, List, [], ◌∷◌, ◌++◌, ◌==◌, if◌then◌else◌}
use lapin.Frame.{ShortString}
use lapin.Acker.{Result, ok, err, ErrorHolder, set}
use lapin.ConsumerStatus
use lapin.ConsumerStatus.{DelegateId, active, canceled}
use lapin.Message.{Delivery, receive_content}

-- `none` says that the consumer is canceled.
abbrev pub DeliveryResult : Type 0 → Type 0 → Type 0
DeliveryResult P E = Result E (Option (Delivery P E))

-- `no_ack` is that of the consumer's options. `deliveries` is the channel between the two ends
-- that the consumer holds, so that sending never fails.
pub record Consumer (P E : Type 0) : Type 0 where
  pub consumer_tag : ShortString
  pub queue : ShortString
  pub no_ack : Bool
  pub status : ConsumerStatus.ConsumerStatus
  pub current_message : Option (Delivery P E)
  pub deliveries : List (DeliveryResult P E)
  pub error : ErrorHolder E

-- What a consumer spawns on its delegate, and the deliveries whose ackers it invalidates.
pub data Effect (P E : Type 0) : Type 0 where
  on_new_delivery : DelegateId → DeliveryResult P E → Effect P E
  delegate_drops : DelegateId → Effect P E
  invalidated : Delivery P E → Effect P E

module _ {P E : Type 0} where
  unfoldable pub new : ShortString → ShortString → Bool → Consumer P E
  new consumer_tag queue no_ack = record {
    consumer_tag = consumer_tag;
    queue = queue;
    no_ack = no_ack;
    status = record { state = active; delegate = none };
    current_message = none;
    deliveries = [];
    error = record { held = none };
  }

  unfoldable pub next_of :
      List (DeliveryResult P E) → Consumer P E → Option (DeliveryResult P E) × Consumer P E
  next_of [] c = (none, c)
  next_of (d ∷ ds) c = (some d, record c { deliveries = ds })

  -- `try_recv`; the stream's poll hands out what it gives.
  unfoldable pub next_delivery : Consumer P E → Option (DeliveryResult P E) × Consumer P E
  unfolding next_of
  next_delivery c = next_of c.deliveries c

  unfoldable pub dispatch :
      DeliveryResult P E → Option DelegateId → Consumer P E → Consumer P E × List (Effect P E)
  dispatch d (some delegate) c = (c, on_new_delivery delegate d ∷ [])
  dispatch d none c = (record c { deliveries = c.deliveries ++ d ∷ [] }, [])

  delegate_all : DelegateId → List (DeliveryResult P E) → List (Effect P E)
  delegate_all delegate [] = []
  delegate_all delegate (d ∷ ds) = on_new_delivery delegate d ∷ delegate_all delegate ds

  -- The loop hands the delegate what is queued, also if the consumer is no longer active.
  unfoldable pub set_delegate : DelegateId → Consumer P E → Consumer P E × List (Effect P E)
  unfolding delegate_all ConsumerStatus.set_delegate
  set_delegate delegate c = (
    record c { deliveries = []; status = ConsumerStatus.set_delegate (some delegate) c.status },
    delegate_all delegate c.deliveries,
  )

  unfoldable pub start_new_delivery : Delivery P E → Consumer P E → Consumer P E
  start_new_delivery d c = record c { current_message = some d }

  with_properties : P → Option (Delivery P E) → Option (Delivery P E)
  with_properties properties none = none
  with_properties properties (some d) = some (record d { properties = properties })

  with_content : List ℕ → Option (Delivery P E) → Option (Delivery P E)
  unfolding receive_content
  with_content payload none = none
  with_content payload (some d) = some (receive_content payload d)

  deliver : Option (Delivery P E) → Consumer P E → Consumer P E × List (Effect P E)
  unfolding dispatch
  deliver none c = (c, [])
  deliver (some d) c =
      dispatch (ok (some d)) c.status.delegate (record c { current_message = none })

  -- `check_new_delivery` of what `check_new_delivery_complete` takes.
  complete : Bool → Consumer P E → Consumer P E × List (Effect P E)
  unfolding deliver
  complete false c = (c, [])
  complete true c = deliver c.current_message c

  unfoldable pub handle_content_header_frame :
      ℕ → P → Consumer P E → Consumer P E × List (Effect P E)
  unfolding with_properties complete
  handle_content_header_frame size properties c =
      complete (size == 0)
        (record c { current_message = with_properties properties c.current_message })

  unfoldable pub handle_body_frame : ℕ → List ℕ → Consumer P E → Consumer P E × List (Effect P E)
  unfolding with_content complete
  handle_body_frame remaining_size payload c =
      complete (remaining_size == 0)
        (record c { current_message = with_content payload c.current_message })

  invalidate_all : List (DeliveryResult P E) → List (Effect P E)
  invalidate_all [] = []
  invalidate_all (ok (some d) ∷ ds) = invalidated d ∷ invalidate_all ds
  invalidate_all (ok none ∷ ds) = invalidate_all ds
  invalidate_all (err e ∷ ds) = invalidate_all ds

  unfoldable pub drop_prefetched_messages : Consumer P E → Consumer P E × List (Effect P E)
  unfolding invalidate_all
  drop_prefetched_messages c = (
    record c { deliveries = [] },
    elim c.status.delegate [
      | some delegate ↦ delegate_drops delegate ∷ invalidate_all c.deliveries
      | none ↦ invalidate_all c.deliveries
    ],
  )

  -- Before a consumer is declared again on a recovered channel.
  unfoldable pub reset : Consumer P E → Consumer P E × List (Effect P E)
  unfolding drop_prefetched_messages
  reset c =
      let (c', effects) = if c.no_ack then (c, []) else drop_prefetched_messages c in
      (record c' { current_message = none }, effects)

  unfoldable pub start_cancel : Consumer P E → Consumer P E
  unfolding ConsumerStatus.start_cancel
  start_cancel c = record c { status = ConsumerStatus.start_cancel c.status }

  unfoldable pub cancel : Consumer P E → Consumer P E × List (Effect P E)
  unfolding dispatch ConsumerStatus.cancel
  cancel c =
      let (c', effects) = dispatch (ok none) c.status.delegate c in
      (record c' { status = ConsumerStatus.cancel c.status }, effects)

  unfoldable pub send_error : E → Consumer P E → Consumer P E × List (Effect P E)
  unfolding dispatch
  send_error error c = dispatch (err error) c.status.delegate c

  -- An error that is already there stays; the new one is logged and sent all the same.
  unfoldable pub set_error : E → Consumer P E → Consumer P E × List (Effect P E)
  unfolding send_error cancel
  set_error error c =
      let (sent, effects) = send_error error (record c { error = (set error c.error).0 }) in
      let (last, more) = cancel sent in (last, effects ++ more)
