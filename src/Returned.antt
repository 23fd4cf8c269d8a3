-- ===== src/Returned.antt =====
-- src/returned_messages.rs and the confirmations of src/publisher_confirm.rs: the messages that the
-- broker sent back, and the confirmations that nobody awaited.
pub mod Drain
use lapin.Base.{
  ℕ, Bool, true, false, Option, none, some, List, [], ◌∷◌, ◌++◌, ◌==◌, is_empty, if◌then◌else◌,
}
use lapin.Frame.{PromiseId}
use lapin.Acker.{Result, ok, err}
use lapin.Message.{Delivery, receive_content, BasicReturnMessage}

pub data Confirmation (P E : Type 0) : Type 0 where
  ack : Option (BasicReturnMessage P E) → Confirmation P E
  nack : Option (BasicReturnMessage P E) → Confirmation P E
  not_requested : Confirmation P E

unfoldable pub take_message : {P E : Type 0} → Confirmation P E → Option (BasicReturnMessage P E)
take_message (ack m) = m
take_message (nack m) = m
take_message not_requested = none

pub record ReturnedMessages (P E : Type 0) : Type 0 where
  pub current_message : Option (BasicReturnMessage P E)
  pub non_confirm_messages : List (BasicReturnMessage P E)
  pub waiting_messages : List (BasicReturnMessage P E)
  pub messages : List (BasicReturnMessage P E)
  pub dropped_confirms : List PromiseId

-- `try_wait` on a promise: what it was completed with, if it was.
abbrev pub Waits : Type 0 → Type 0 → Type 0
Waits P E = PromiseId → Option (Result E (Confirmation P E))

unfoldable pub waits_on :
    {P E : Type 0} → Option (Result E (Confirmation P E)) → PromiseId → List PromiseId
waits_on none promise = promise ∷ []
waits_on (some c) promise = []

module _ {P E : Type 0} where
  abbrev pub nothing_returned : ReturnedMessages P E
  nothing_returned = record {
    current_message = none;
    non_confirm_messages = [];
    waiting_messages = [];
    messages = [];
    dropped_confirms = [];
  }

  unfoldable pub start_new_delivery :
      BasicReturnMessage P E → ReturnedMessages P E → ReturnedMessages P E
  start_new_delivery m r = record r { current_message = some m }

  complete_as : Option (BasicReturnMessage P E) → Bool → ReturnedMessages P E → ReturnedMessages P E
  complete_as none confirm_mode r = r
  complete_as (some m) true r = record r {
    current_message = none;
    waiting_messages = r.waiting_messages ++ m ∷ [];
  }
  complete_as (some m) false r = record r {
    current_message = none;
    non_confirm_messages = r.non_confirm_messages ++ m ∷ [];
  }

  unfoldable pub new_delivery_complete : Bool → ReturnedMessages P E → ReturnedMessages P E
  unfolding complete_as
  new_delivery_complete confirm_mode r = complete_as r.current_message confirm_mode r

  with_properties : P → Option (BasicReturnMessage P E) → Option (BasicReturnMessage P E)
  with_properties properties none = none
  with_properties properties (some m) =
      some (record m { delivery = record (m.delivery) { properties = properties } })

  with_content : List ℕ → Option (BasicReturnMessage P E) → Option (BasicReturnMessage P E)
  unfolding receive_content
  with_content payload none = none
  with_content payload (some m) = some (record m { delivery = receive_content payload m.delivery })

  unfoldable pub handle_content_header_frame :
      ℕ → P → Bool → ReturnedMessages P E → ReturnedMessages P E
  unfolding with_properties new_delivery_complete
  handle_content_header_frame size properties confirm_mode r =
      let r' = record r { current_message = with_properties properties r.current_message } in
      if size == 0 then new_delivery_complete confirm_mode r' else r'

  unfoldable pub handle_body_frame : ℕ → List ℕ → Bool → ReturnedMessages P E → ReturnedMessages P E
  unfolding with_content new_delivery_complete
  handle_body_frame remaining_size payload confirm_mode r =
      let r' = record r { current_message = with_content payload r.current_message } in
      if remaining_size == 0 then new_delivery_complete confirm_mode r' else r'

  pop_waiting :
      List (BasicReturnMessage P E)
      → ReturnedMessages P E
      → Option (BasicReturnMessage P E) × ReturnedMessages P E
  pop_waiting [] r = (none, r)
  pop_waiting (m ∷ ms) r = (some m, record r { waiting_messages = ms })

  unfoldable pub get_waiting_message :
      ReturnedMessages P E → Option (BasicReturnMessage P E) × ReturnedMessages P E
  unfolding pop_waiting
  get_waiting_message r = pop_waiting r.waiting_messages r

  unfoldable pub clear_dropped_confirms : ReturnedMessages P E → ReturnedMessages P E
  clear_dropped_confirms r = record r { dropped_confirms = [] }

  -- The messages of a promise that is completed; what is completed without a message is discarded.
  unfoldable pub carried : Option (Result E (Confirmation P E)) → List (BasicReturnMessage P E)
  unfolding take_message
  carried none = []
  carried (some (err error)) = []
  carried (some (ok c)) = elim (take_message c) [ none ↦ [] | some m ↦ m ∷ [] ]

  unfoldable pub register_dropped_confirm :
      Waits P E → PromiseId → ReturnedMessages P E → ReturnedMessages P E
  unfolding carried waits_on
  register_dropped_confirm try_wait promise r = record r {
    messages = r.messages ++ carried (try_wait promise);
    dropped_confirms = r.dropped_confirms ++ waits_on (try_wait promise) promise;
  }

  -- The loop of `drain`: the messages collected, and the promises kept.
  process_all :
      Waits P E
      → List PromiseId
      → List (BasicReturnMessage P E)
      → List PromiseId
      → List (BasicReturnMessage P E) × List PromiseId
  unfolding carried waits_on
  process_all try_wait [] messages kept = (messages, kept)
  process_all try_wait (p ∷ ps) messages kept =
      process_all try_wait ps (messages ++ carried (try_wait p)) (kept ++ waits_on (try_wait p) p)

  -- An empty list of unconfirmed messages is left as it is, and there is nothing to put in front.
  unfoldable pub drain :
      Waits P E → ReturnedMessages P E → List (BasicReturnMessage P E) × ReturnedMessages P E
  unfolding process_all
  drain try_wait r =
      let messages =
        if is_empty r.non_confirm_messages
        then r.messages
        else r.non_confirm_messages ++ r.messages in
      let (collected, kept) = process_all try_wait r.dropped_confirms messages [] in
      (collected, record r { messages = []; non_confirm_messages = []; dropped_confirms = kept })
