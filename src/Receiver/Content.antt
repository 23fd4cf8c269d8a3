-- ===== src/Receiver/Content.antt =====
-- A whole content through the receiver state: its header, then its bodies.
use lapin.Base.{ℕ, ◌+◌, ◌<◌, ◌≡◌, refl, Bool, List, [], ◌∷◌, arith, All}
use lapin.Receiver.{
  DeliveryCause, will_receive_content, receiving_content, ChannelReceiverStates, HeaderOutcome,
  BodyOutcome, set_content_length, receive,
}

abbrev pub sum : List ℕ → ℕ
sum [] = 0
sum (n ∷ ns) = n + sum ns

-- The bodies of the given sizes, received one after the other, with what each call reports.
unfoldable pub receive_all :
    List ℕ → Bool → ChannelReceiverStates → ChannelReceiverStates × List BodyOutcome
receive_all [] confirm_mode states = (states, [])
receive_all (n ∷ ns) confirm_mode states =
    let (states', outcome) = receive n confirm_mode states in
    let (last, outcomes) = receive_all ns confirm_mode states' in (last, outcome ∷ outcomes)

-- Each body is handled for the content's cause, with the size of the bodies behind it.
abbrev pub remainders : List ℕ → DeliveryCause → Bool → List BodyOutcome
remainders [] cause confirm_mode = []
remainders (n ∷ ns) cause confirm_mode =
    BodyOutcome.handled cause (sum ns) confirm_mode ∷ remainders ns cause confirm_mode

receive_all_nil :
    (confirm_mode : Bool) (states : ChannelReceiverStates)
    → receive_all [] confirm_mode states ≡ (states, [])
unfolding receive_all
receive_all_nil confirm_mode states = refl

receive_all_lem :
    (ns : List ℕ) (n : ℕ) (confirm_mode : Bool) (cause : DeliveryCause)
    (states : ChannelReceiverStates)
    → All (λ k. 0 < k) ns
    → receive_all (n ∷ ns) confirm_mode (receiving_content cause (n + sum ns) ∷ states)
      ≡ (states, remainders (n ∷ ns) cause confirm_mode)
unfolding receive_all receive
receive_all_lem [] n confirm_mode cause states pos = ground arith
receive_all_lem (m ∷ ns) n confirm_mode cause states pos =
    ground (arith, receive_all_lem ns m confirm_mode cause states pos.1)

-- A content of bodies that are not empty, announced by a delivery in front of the queue and by a
-- header of its class with the bodies' total size, is received whole: the header and each body are
-- handled for its cause, a body with the size that remains behind it, and the queue is left as it
-- was behind the announcement. A content of no bodies is complete with its header.
pub content_received :
    (class_id : ℕ) (ns : List ℕ) (confirm_mode : Bool) (cause : DeliveryCause)
    (states : ChannelReceiverStates)
    → All (λ k. 0 < k) ns
    → let (begun, outcome) =
        set_content_length class_id
          (sum ns)
          confirm_mode
          (will_receive_content class_id cause ∷ states) in
      (outcome ≡ HeaderOutcome.handled cause confirm_mode)
      × (receive_all ns confirm_mode begun ≡ (states, remainders ns cause confirm_mode))
unfolding set_content_length
content_received class_id [] confirm_mode cause states pos = ground (
  arith,
  receive_all_nil confirm_mode states,
  receive_all_nil confirm_mode
      (set_content_length class_id 0 confirm_mode (will_receive_content class_id cause ∷ states)).0,
)
content_received class_id (n ∷ ns) confirm_mode cause states pos =
    ground (arith, receive_all_lem ns n confirm_mode cause states pos.1)
