-- ===== src/Frames/Expected.antt =====
-- src/frames.rs: the replies that a channel waits for, as frames go out.
use lapin.Base.{◌≡◌, Option, none, some, List, [], ◌∷◌, ◌++◌, arith, ℕ_discrete}
use lapin.Base.Dict
use lapin.Frame.{ChannelId, PromiseId, AmqpFrame, ExpectedReply}
use lapin.Frames.{Frames, check_poison, push, expect, replies_of}

module _ {P E : Type 0} where
  abbrev pub expected_on : ChannelId → Frames P E → List (ExpectedReply P)
  expected_on c s = elim (Dict.get ℕ_discrete c s.expected_replies) [
    | none ↦ []
    | some replies ↦ replies
  ]

  -- A push that goes out adds its reply to those of its channel, as the last.
  pub push-expected_on :
      (c : ChannelId) (frame : AmqpFrame P) (canceler : PromiseId) (r : ExpectedReply P)
      (resolver : Option PromiseId) (s : Frames P E)
      → check_poison c s ≡ none
      → let (s', effects) = push c frame canceler (some r) resolver s in
        (Dict.get ℕ_discrete c s'.expected_replies ≡ some (expected_on c s ++ r ∷ []))
        × (effects ≡ [])
  unfolding push expect replies_of
  push-expected_on c frame canceler r resolver s n =
      let set = Dict.get-insert ℕ_discrete c c (expected_on c s ++ r ∷ []) s.expected_replies in
      (ground (arith, n, set), ground (arith, n))
