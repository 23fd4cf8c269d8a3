-- ===== src/BasicGet.antt =====
-- src/basic_get_delivery.rs: the answer to a `basic.get` that is being received.
use lapin.Base.{ℕ, Option, none, some, List, [], ◌∷◌, ◌==◌, if◌then◌else◌}
use lapin.Frame.{PromiseId}
use lapin.Message.{receive_content, BasicGetMessage}

pub record InnerData (P E : Type 0) : Type 0 where
  pub message : BasicGetMessage P E
  pub resolver : PromiseId

-- The promise of a `basic.get` that is resolved, with its message.
pub record Resolved (P E : Type 0) : Type 0 where
  pub promise : PromiseId
  pub message : BasicGetMessage P E

module _ {P E : Type 0} where
  unfoldable pub start_new_delivery :
      BasicGetMessage P E → PromiseId → Option (InnerData P E) → Option (InnerData P E)
  start_new_delivery message resolver inner =
      some (record { message = message; resolver = resolver })

  with_properties : P → Option (InnerData P E) → Option (InnerData P E)
  with_properties properties none = none
  with_properties properties (some i) =
      let d = i.message.delivery in
      let m = record (i.message) { delivery = record d { properties = properties } } in
      some (record i { message = m })

  with_content : List ℕ → Option (InnerData P E) → Option (InnerData P E)
  unfolding receive_content
  with_content payload none = none
  with_content payload (some i) =
      let m = record (i.message) { delivery = receive_content payload i.message.delivery } in
      some (record i { message = m })

  new_delivery_complete : Option (InnerData P E) → Option (InnerData P E) × List (Resolved P E)
  new_delivery_complete none = (none, [])
  new_delivery_complete (some i) = (none, record { promise = i.resolver; message = i.message } ∷ [])

  unfoldable pub handle_content_header_frame :
      ℕ → P → Option (InnerData P E) → Option (InnerData P E) × List (Resolved P E)
  unfolding with_properties new_delivery_complete
  handle_content_header_frame size properties inner =
      let inner' = with_properties properties inner in
      if size == 0 then new_delivery_complete inner' else (inner', [])

  unfoldable pub handle_body_frame :
      ℕ → List ℕ → Option (InnerData P E) → Option (InnerData P E) × List (Resolved P E)
  unfolding with_content new_delivery_complete
  handle_body_frame remaining_size payload inner =
      let inner' = with_content payload inner in
      if remaining_size == 0 then new_delivery_complete inner' else (inner', [])
