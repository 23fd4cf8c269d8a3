-- ===== src/Frames.antt =====
-- src/frames.rs: the queues of outgoing frames, the expected replies, and poisoning. The lock is
-- held for the whole of an operation, so an operation is one step.
pub mod Expected
pub mod Order
pub mod Publish
pub mod Replies
pub mod Discard
use lapin.Base.{
  ℕ, zero, suc, Bool, true, false, not, ◌&&◌, Option, none, some, List, [], ◌∷◌, ◌++◌, ◌==◌,
  ℕ_discrete, is_empty, retain, if◌then◌else◌,
}
use lapin.Base.Dict
use lapin.Frame.{
  ChannelId, PromiseId, AmqpFrame, protocol_header, method, basic_cancel, is_protocol_header,
  is_content, FrameApi, Effect, deregister_consumer, resolved, rejected, FrameSending, reject,
  resolve, FrameEntry, ConnectionStep, into_connection_resolver, Reply, connection_step,
  basic_cancel_ok, channel_close_ok, other, ExpectedReply, cancel_expected_reply,
  cancel_expected_replies,
}

-- The state behind the lock, `Inner`.
pub record Frames (P E : Type 0) : Type 0 where
  pub publish_frames : List (FrameEntry P)
  pub retry_frames : List (FrameEntry P)
  pub frames : List (FrameEntry P)
  pub low_prio_frames : List (FrameEntry P)
  pub expected_replies : List (ChannelId × List (ExpectedReply P))
  pub poison : Option E
  pub channels_poison : List (ChannelId × E)

unfoldable pub or_else : {E : Type 0} → Option E → Option E → Option E
or_else (some e) o = some e
or_else none o = o

-- The entries of `push_frames`: the last one alone has the resolver. `resolved` says that there
-- was none, and that the resolver is resolved at once.
unfoldable pub entries : {P : Type 0} → List (AmqpFrame P) → PromiseId → List (FrameEntry P)
entries [] resolver = []
entries (f ∷ []) resolver =
    record { frame = f; sending = record { canceler = none; resolver = some resolver } } ∷ []
entries (f ∷ g ∷ fs) resolver =
    record { frame = f; sending = record { canceler = none; resolver = none } }
    ∷ entries (g ∷ fs) resolver

front_is_header : {P : Type 0} → FrameApi P → List (FrameEntry P) → Bool
front_is_header api [] = false
front_is_header api (f ∷ fs) = api.is_header f.frame

module _ {P E : Type 0} where
  abbrev pub empty : Frames P E
  empty = record {
    publish_frames = [];
    retry_frames = [];
    frames = [];
    low_prio_frames = [];
    expected_replies = [];
    poison = none;
    channels_poison = [];
  }

  -- The channel's own poison comes before the connection's.
  unfoldable pub check_poison : ChannelId → Frames P E → Option E
  unfolding or_else Dict.get ℕ_discrete
  check_poison c s = or_else (Dict.get ℕ_discrete c s.channels_poison) s.poison

  unfoldable pub replies_of : ChannelId → Frames P E → List (ExpectedReply P)
  replies_of c s = elim (Dict.get ℕ_discrete c s.expected_replies) [
    | none ↦ []
    | some replies ↦ replies
  ]

  unfoldable pub expect : ChannelId → Option (ExpectedReply P) → Frames P E → Frames P E
  expect c none s = s
  expect c (some reply) s = record s {
    expected_replies = Dict.insert ℕ_discrete c (replies_of c s ++ reply ∷ []) s.expected_replies;
  }

  unfoldable pub cancel_reply : Option (ExpectedReply P) → E → List (Effect E)
  cancel_reply none error = []
  cancel_reply (some reply) error = cancel_expected_reply reply error

  unfoldable pub push :
      ChannelId
      → AmqpFrame P
      → PromiseId
      → Option (ExpectedReply P)
      → Option PromiseId
      → Frames P E
      → Frames P E × List (Effect E)
  unfolding expect cancel_reply replies_of
  push c frame canceler expected_reply resolver s =
      let sending : FrameSending = record { canceler = some canceler; resolver = resolver } in
      elim (check_poison c s) [
        | some error ↦ (s, cancel_reply expected_reply error ++ reject sending error)
        | none ↦ (
          expect c expected_reply
              (record s { frames = s.frames ++ record { frame = frame; sending = sending } ∷ [] }),
          [],
        )
      ]

  unfoldable pub push_frames :
      ChannelId → List (AmqpFrame P) → PromiseId → Frames P E → Frames P E × List (Effect E)
  unfolding entries
  push_frames c fs resolver s = elim (check_poison c s) [
    | some error ↦ (s, rejected resolver error ∷ [])
    | none ↦ (
      record s { low_prio_frames = s.low_prio_frames ++ entries fs resolver },
      if is_empty fs then resolved resolver ∷ [] else [],
    )
  ]

  unfoldable pub retry : FrameEntry P → Frames P E → Frames P E
  retry f s = record s { retry_frames = s.retry_frames ++ f ∷ [] }

  -- The inner loop of `pop`: content frames move over, up to the first frame of another kind.
  unfoldable pub move_content : List (FrameEntry P) → List (FrameEntry P) → Frames P E → Frames P E
  move_content published [] s = record s { publish_frames = published; low_prio_frames = [] }
  move_content published (f ∷ low) s = elim (is_content f.frame) [
    | true ↦ move_content (published ++ f ∷ []) low s
    | false ↦ record s { publish_frames = published; low_prio_frames = f ∷ low }
  ]

  module _ (api : FrameApi P) where
    pop_low : List (FrameEntry P) → Frames P E → Option (FrameEntry P) × Frames P E
    unfolding front_is_header
    pop_low [] s = (none, s)
    pop_low (f ∷ low) s =
        let s' = record s { low_prio_frames = low } in
        (some f, if front_is_header api low then move_content s.publish_frames low s' else s')

    pop_from :
        List (FrameEntry P)
        → List (FrameEntry P)
        → List (FrameEntry P)
        → Bool
        → Frames P E
        → Option (FrameEntry P) × Frames P E
    pop_from (f ∷ r) p q flow s = (some f, record s { retry_frames = r })
    pop_from [] (f ∷ p) q flow s = (some f, record s { publish_frames = p })
    pop_from [] [] (f ∷ q) flow s = (some f, record s { frames = q })
    pop_from [] [] [] flow s = if flow then pop_low s.low_prio_frames s else (none, s)

    -- The next frame to send: retried frames first, then the content of the publish in progress,
    -- then methods; a new publish only where the server lets content flow.
    unfoldable pub pop : Bool → Frames P E → Option (FrameEntry P) × Frames P E
    unfolding pop_from pop_low move_content
    pop flow s = pop_from s.retry_frames s.publish_frames s.frames flow s

  unfoldable pub has_pending : Frames P E → Bool
  has_pending s = not (
      is_empty s.retry_frames
      && is_empty s.publish_frames
      && is_empty s.frames
      && is_empty s.low_prio_frames)
