-- ===== src/Frames/Replies.antt =====
-- src/frames.rs: finding, taking and cancelling the replies that are expected on a channel.
pub mod Steps
use lapin.Base.{
  ℕ, zero, suc, Bool, true, false, not, Option, none, some, List, [], ◌∷◌, ◌++◌, ℕ_discrete, retain,
}
use lapin.Base.Dict
use lapin.Frame.{
  ChannelId, PromiseId, AmqpFrame, protocol_header, is_protocol_header, FrameApi, Effect, resolved,
  rejected, FrameEntry, ConnectionStep, into_connection_resolver, Reply, connection_step,
  basic_cancel_ok, channel_close_ok, other, ExpectedReply, cancel_expected_replies,
}
use lapin.Frames.{Frames}

-- `position` and `remove`: the first element that passes, and the others in order.
unfoldable pub take_first {ℓ} : {A : Type ℓ} → (A → Bool) → List A → Option (A × List A)
take_first p [] = none
take_first p (x ∷ xs) = elim (p x) [
  | true ↦ some (x, xs)
  | false ↦ elim (take_first p xs) [ none ↦ none | some (y, ys) ↦ some (y, x ∷ ys) ]
]

abbrev pub is_connection_step : {P : Type 0} → Reply P → Bool
is_connection_step (connection_step step) = true
is_connection_step _ = false

-- The resolver of the header step, where the connection waits for `connection.start`.
abbrev header_resolver : {P : Type 0} → Reply P → Option PromiseId
header_resolver (connection_step (ConnectionStep.protocol_header resolver connection)) =
    some resolver
header_resolver _ = none

find_header : {P : Type 0} → List (ExpectedReply P) → Option PromiseId
find_header [] = none
find_header (r ∷ rs) = elim (header_resolver r.reply) [
  | some resolver ↦ some resolver
  | none ↦ find_header rs
]

abbrev as_step : {P : Type 0} → Option (Reply P) → Option (ConnectionStep P)
as_step (some (connection_step step)) = some step
as_step _ = none

abbrev step_resolver : {P : Type 0} → Option (ConnectionStep P) → Option PromiseId
step_resolver none = none
step_resolver (some step) = some (into_connection_resolver step).0

module _ {P E : Type 0} where
  put_replies : ChannelId → List (ExpectedReply P) → Frames P E → Frames P E
  put_replies c replies s = record s {
    expected_replies = Dict.insert ℕ_discrete c replies s.expected_replies;
  }

  unfoldable pub find_expected_reply :
      ChannelId → (ExpectedReply P → Bool) → Frames P E → Option (Reply P) × Frames P E
  unfolding put_replies
  find_expected_reply c finder s = elim (Dict.get ℕ_discrete c s.expected_replies) [
    | none ↦ (none, s)
    | some replies ↦ elim (take_first finder replies) [
      | none ↦ (none, s)
      | some (r, rest) ↦ (some r.reply, put_replies c rest s)
    ]
  ]

  unfoldable pub find_connection_step :
      ChannelId → Frames P E → Option (ConnectionStep P) × Frames P E
  find_connection_step c s =
      let (reply, s') = find_expected_reply c (λ r. is_connection_step r.reply) s in
      (as_step reply, s')

  unfoldable pub connection_resolver : ChannelId → Frames P E → Option PromiseId × Frames P E
  connection_resolver c s = let (step, s') = find_connection_step c s in (step_resolver step, s')

  -- The `while let` loop, on fuel: `none` means that the fuel ran out.
  unfoldable pub clear_connection_steps : ℕ → E → Frames P E → Option (Frames P E × List (Effect E))
  clear_connection_steps zero error s = none
  clear_connection_steps (suc fuel) error s =
      let (found, s') = connection_resolver 0 s in
      elim found [
        | none ↦ some (s', [])
        | some resolver ↦ elim (clear_connection_steps fuel error s') [
          | none ↦ none
          | some (t, effects) ↦ some (t, rejected resolver error ∷ effects)
        ]
      ]

  -- The queues and the expected reply stay but for the header frames, and a new header frame is
  -- the first to go out.
  unfoldable pub retry_connection_header : FrameApi P → Frames P E → Bool × Frames P E
  unfolding find_header
  retry_connection_header api s = elim (Dict.get ℕ_discrete 0 s.expected_replies) [
    | none ↦ (false, s)
    | some replies ↦ elim (find_header replies) [
      | none ↦ (false, s)
      | some resolver ↦
          let entry : FrameEntry P = record {
            frame = AmqpFrame.protocol_header api.amqp_0_9_1;
            sending = record { canceler = some resolver; resolver = none };
          } in
          (
            true,
            record s {
              frames = retain (λ f. not (is_protocol_header f.frame)) s.frames;
              retry_frames = entry ∷ retain (λ f. not (is_protocol_header f.frame)) s.retry_frames;
            },
          )
    ]
  ]

  -- The loop over the replies before `channel.close-ok`: what it found, what is left behind it.
  skip_to_close :
      List (ExpectedReply P) → E → Option (Reply P) × List (ExpectedReply P) × List (Effect E)
  skip_to_close [] error = (none, [], [])
  skip_to_close (r ∷ rs) error =
      let (found, rest, effects) = skip_to_close rs error in
      elim r.reply [
        | channel_close_ok resolver ↦ (some (channel_close_ok resolver), rs, [])
        | basic_cancel_ok resolver ↦ (found, rest, resolved resolver ∷ effects)
        | connection_step step ↦ (found, rest, rejected r.canceler error ∷ effects)
        | other p ↦ (found, rest, rejected r.canceler error ∷ effects)
      ]

  unfoldable pub next_expected_close_ok_reply :
      ChannelId → E → Frames P E → Option (Reply P) × Frames P E × List (Effect E)
  unfolding put_replies skip_to_close
  next_expected_close_ok_reply c error s = elim (Dict.get ℕ_discrete c s.expected_replies) [
    | none ↦ (none, s, [])
    | some replies ↦
        let (found, rest, effects) = skip_to_close replies error in
        (found, put_replies c rest s, effects)
  ]

  unfoldable pub take_expected_replies :
      ChannelId → Frames P E → Option (List (ExpectedReply P)) × Frames P E
  take_expected_replies c s = (
    Dict.get ℕ_discrete c s.expected_replies,
    record s { expected_replies = Dict.remove ℕ_discrete c s.expected_replies },
  )

  unfoldable pub clear_expected_replies : ChannelId → E → Frames P E → Frames P E × List (Effect E)
  unfolding take_expected_replies
  clear_expected_replies c error s =
      let (replies, s') = take_expected_replies c s in
      elim replies [ none ↦ (s', []) | some rs ↦ (s', cancel_expected_replies rs error) ]
