-- ===== src/Content/Delivered.antt =====
-- A message that `send_method_frame_with_body` sends reaches its consumer whole: the frames of
-- src/channel.rs on one side, its handlers of contents on the other.
use lapin.Base.{ℕ, ◌≡◌, refl, ap, sym, subst, none, some, List, [], ◌∷◌, ◌++◌, map, arith, length}
use lapin.Base.Dict
use lapin.Frame.{
  ChannelId, PromiseId, AmqpClass, AmqpFrame, method, header, body, FrameEntry, ShortString,
}
use lapin.Frames.{Frames, check_poison, entries, push_frames}
use lapin.Message.{Delivery}
use lapin.Receiver.{will_receive_content, consume, ChannelReceiverStates}
use lapin.Consumer.{Consumer}
use lapin.Payload.{chunks, chunk_size, content_frames, send_method_frame_with_body}
use lapin.Content.{Contents, Effect, Outcome, handle_content_header_frame, handle_body_frame}
use lapin.Content.Bodies.{receive_bodies, extended, all_ok, Delivers}
use lapin.Content.Pieces.{with_header, chunks_delivered}

-- The last entry has the resolver; the frames are those given, in order.
map-entries :
    {P : Type 0} (fs : List (AmqpFrame P)) (resolver : PromiseId)
    → map (λ f. f.frame) (entries fs resolver) ≡ fs
unfolding entries
map-entries [] resolver = refl
map-entries (f ∷ []) resolver = refl
map-entries (f ∷ g ∷ fs) resolver = ap (λ gs. f ∷ gs) (map-entries (g ∷ fs) resolver)

map_ok :
    (P : Type 0) (id : ChannelId) (bs : List (List ℕ))
    → all_ok bs ≡ map (λ f. Outcome.ok) (map {B = AmqpFrame P} (body id) bs)
map_ok P id [] = refl
map_ok P id (b ∷ bs) = ap (λ os. Outcome.ok ∷ os) (map_ok P id bs)

module _ {P E : Type 0} where
  -- A channel takes a frame of a content; no other frame is one.
  unfoldable pub receive_frame :
      AmqpFrame P → Contents P E → Contents P E × List (Effect P E) × Outcome
  receive_frame (AmqpFrame.header id h) c =
      handle_content_header_frame h.class_id h.body_size h.properties c
  receive_frame (AmqpFrame.body id b) c = handle_body_frame b c
  receive_frame _ c = (c, [], Outcome.unexpected_frame)

  -- The frames, one after the other: the last state, all effects, and the outcome of each.
  unfoldable pub receive_frames :
      List (AmqpFrame P) → Contents P E → Contents P E × List (Effect P E) × List Outcome
  receive_frames [] c = (c, [], [])
  receive_frames (f ∷ fs) c =
      let (c', effects, outcome) = receive_frame f c in
      let (last, more, outcomes) = receive_frames fs c' in
      (last, effects ++ more, outcome ∷ outcomes)

  receive_frames-map :
      (id : ChannelId) (bs : List (List ℕ)) (c : Contents P E)
      → receive_frames (map (body id) bs) c ≡ receive_bodies bs c
  unfolding receive_frames receive_frame receive_bodies
  receive_frames-map id [] c = refl
  receive_frames-map id (b ∷ bs) c = rw (receive_frames-map id bs (handle_body_frame b c).0)

  -- On a channel that is not poisoned, `send_method_frame_with_body` queues its frames behind those that
  -- wait and completes nothing: the method first, then a content. That content, taken frame by frame
  -- by a channel where it is announced in front to a consumer that has begun the delivery,
  -- arrives, whatever the payload and the frame size negotiated: each of its frames is accepted, the
  -- receiver's queue is left as it was behind the announcement, and the consumer is handed the delivery,
  -- with the sender's properties and with the payload behind its data, once and at the end; no other
  -- consumer is changed.
  pub content_delivered :
      (id : ChannelId) (frame_max class_id : ℕ) (m : AmqpClass P) (payload : List ℕ)
      (properties : P) (resolver : PromiseId) (s : Frames P E) (tag j : ShortString)
      (states : ChannelReceiverStates) (consumer : Consumer P E) (d : Delivery P E)
      (c : Contents P E)
      → check_poison id s ≡ none
      → c.receiver_state ≡ will_receive_content class_id (consume tag) ∷ states
      → Dict.get Dict.String_discrete tag c.consumers ≡ some consumer
      → consumer.current_message ≡ some d
      → (sent : List (FrameEntry P)) × (content : List (AmqpFrame P)) × (send_method_frame_with_body
            id frame_max class_id m payload properties resolver s
          ≡ (record s { low_prio_frames = s.low_prio_frames ++ sent }, []))
        × (map (λ f. f.frame) sent ≡ method id m ∷ content)
        × Delivers tag j states
            (extended (with_header properties d) payload)
            consumer
            c
            ((receive_frames content c).0, (receive_frames content c).1)
        × ((receive_frames content c).2 ≡ map (λ f. Outcome.ok) content)
  unfolding send_method_frame_with_body push_frames content_frames receive_frames receive_frame
  content_delivered id frame_max class_id m payload properties resolver s tag j states consumer d c
        free r g begun =
      let bodies = chunks (chunk_size frame_max) payload in
      let fs = content_frames id frame_max class_id m payload properties in
      let (arrived, ok, oks) =
        chunks_delivered class_id frame_max payload properties tag j states consumer d c r g
          begun in
      let content : List (AmqpFrame P) =
        header id
          (record { class_id = class_id; body_size = length payload; properties = properties })
        ∷ map (body id) bodies in
      let announced = handle_content_header_frame class_id (length payload) properties c in
      let same = receive_frames-map id bodies announced.0 in
      (
        entries fs resolver,
        content,
        ground (arith, free),
        map-entries fs resolver,
        subst
            (λ last.
              Delivers tag j states (extended (with_header properties d) payload) consumer c
                (last.0, announced.1 ++ last.1))
            (sym same) arrived,
        ground (arith, same, ok, oks, map_ok P id bodies),
      )
