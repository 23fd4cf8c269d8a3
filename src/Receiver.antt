-- ===== src/Receiver.antt =====
-- src/channel_receiver_state.rs: the contents that a channel awaits, the one in progress first.
-- A handler that the caller passes is called at most once, last or before the queue's front is put
-- back, and reads nothing of the queue: its call is the operation's outcome.
pub mod Content
use lapin.Base.{
  ℕ, zero, suc, ◌-◌, Bool, true, false, Option, none, some, List, [], ◌∷◌, ◌++◌, ltb, leb, ◌==◌,
  if◌then◌else◌,
}
use lapin.Frame.{ShortString}

pub data DeliveryCause : Type 0 where
  consume : ShortString → DeliveryCause
  get : DeliveryCause
  return : DeliveryCause

-- A class id of two bytes; a size in bytes, of eight.
pub data ChannelReceiverState : Type 0 where
  will_receive_content : ℕ → DeliveryCause → ChannelReceiverState
  receiving_content : DeliveryCause → ℕ → ChannelReceiverState

abbrev pub ChannelReceiverStates : Type 0
ChannelReceiverStates = List ChannelReceiverState

-- Which handler `set_content_length` calls: with the cause and the confirm mode, or for an
-- invalid class with the class that was expected, or for an unexpected header.
pub data HeaderOutcome : Type 0 where
  handled : DeliveryCause → Bool → HeaderOutcome
  invalid_class : ℕ → HeaderOutcome
  unexpected : HeaderOutcome

-- Which handler `receive` calls: with the cause, the size that remains and the confirm mode, or for
-- a body that is larger than expected, or for an unexpected one.
pub data BodyOutcome : Type 0 where
  handled : DeliveryCause → ℕ → Bool → BodyOutcome
  too_large : ℕ → BodyOutcome
  unexpected : BodyOutcome

unfoldable pub reset : ChannelReceiverStates → ChannelReceiverStates
reset states = []

unfoldable pub set_will_receive : ℕ → DeliveryCause → ChannelReceiverStates → ChannelReceiverStates
set_will_receive class_id cause states = states ++ will_receive_content class_id cause ∷ []

-- The front is put back only if a body follows.
put_front : DeliveryCause → ℕ → ChannelReceiverStates → ChannelReceiverStates
put_front cause size states = if ltb 0 size then receiving_content cause size ∷ states else states

unfoldable pub set_content_length :
    ℕ → ℕ → Bool → ChannelReceiverStates → ChannelReceiverStates × HeaderOutcome
unfolding put_front
set_content_length class_id length confirm_mode [] = ([], HeaderOutcome.unexpected)
set_content_length class_id length confirm_mode (receiving_content cause size ∷ states) =
    (states, HeaderOutcome.unexpected)
set_content_length class_id length confirm_mode (will_receive_content expected cause ∷ states) =
    if expected == class_id
    then (put_front cause length states, HeaderOutcome.handled cause confirm_mode)
    else (states, HeaderOutcome.invalid_class expected)

-- `checked_sub` fails if the body is larger than what remains.
unfoldable pub receive : ℕ → Bool → ChannelReceiverStates → ChannelReceiverStates × BodyOutcome
unfolding put_front
receive length confirm_mode [] = ([], BodyOutcome.unexpected)
receive length confirm_mode (will_receive_content class_id cause ∷ states) =
    (states, BodyOutcome.unexpected)
receive length confirm_mode (receiving_content cause size ∷ states) =
    if leb length size
    then (
      put_front cause (size - length) states,
      BodyOutcome.handled cause (size - length) confirm_mode,
    )
    else (states, BodyOutcome.too_large size)
