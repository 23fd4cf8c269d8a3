-- ===== src/Frames/Discard/Poison.antt =====
-- What a poisoned connection or channel does to later pushes.
use lapin.Base.{◌≡◌, ite, false, Option, none, some, List, [], ◌∷◌, ◌++◌, arith, ℕ_discrete}
use lapin.Base.Dict
use lapin.Frame.{ChannelId, PromiseId, AmqpFrame, rejected, reject, ExpectedReply}
use lapin.Frames.{Frames, check_poison, cancel_reply, push, push_frames, has_pending}
use lapin.Frames.Discard.{drop_pending, poison_channel, drop_channel_poison}

module _ {P E : Type 0} where
  -- After `drop_pending` nothing is pending and no reply is expected, and until the poison is
  -- dropped every push of a frame changes nothing: its expected reply is cancelled and its
  -- resolver, or else its canceler, is rejected, with the channel's own error if it has one and
  -- with the connection's otherwise.
  pub drop_pending-push :
      (error : E) (c : ChannelId) (frame : AmqpFrame P) (canceler : PromiseId)
      (reply : Option (ExpectedReply P)) (resolver : Option PromiseId) (s : Frames P E)
      → let t = (drop_pending error s).0 in
        let e : E = elim (Dict.get ℕ_discrete c s.channels_poison) [
          | some own ↦ own
          | none ↦ error
        ] in
        (has_pending t ≡ false)
        × (t.expected_replies ≡ [])
        × (push c frame canceler reply resolver t ≡ (
          t,
          cancel_reply reply e
              ++ reject (record { canceler = some canceler; resolver = resolver }) e,
        ))
  unfolding drop_pending has_pending push check_poison
  drop_pending-push error c frame canceler reply resolver s = ground arith

  -- While a channel is poisoned, a push of a frame on it changes nothing: its expected reply is
  -- cancelled and its resolver, or else its canceler, is rejected, with that error.
  pub poison_channel-push :
      (error : E) (c : ChannelId) (frame : AmqpFrame P) (canceler : PromiseId)
      (reply : Option (ExpectedReply P)) (resolver : Option PromiseId) (s : Frames P E)
      → let t = poison_channel c error s in
        push c frame canceler reply resolver t ≡ (
          t,
          cancel_reply reply error
              ++ reject (record { canceler = some canceler; resolver = resolver }) error,
        )
  unfolding poison_channel push check_poison
  poison_channel-push error c frame canceler reply resolver s =
      ground (arith, Dict.get-insert ℕ_discrete c c error s.channels_poison)

  -- While a channel is poisoned, a push of frames on it changes nothing and rejects its resolver
  -- with that error, and every other channel has the poison that it had; dropping the channel's
  -- poison leaves it with the connection's, and again every other channel with its own.
  pub poison_channel-push_frames :
      (error : E) (c d : ChannelId) (fs : List (AmqpFrame P)) (resolver : PromiseId)
      (s : Frames P E)
      → let t = poison_channel c error s in
        (push_frames c fs resolver t ≡ (t, rejected resolver error ∷ []))
        × (check_poison d t ≡ ite (ℕ_discrete c d) (some error) (check_poison d s))
        × (check_poison d (drop_channel_poison c t)
            ≡ ite (ℕ_discrete c d) s.poison (check_poison d s))
  unfolding poison_channel push_frames check_poison drop_channel_poison
  poison_channel-push_frames error c d fs resolver s =
      let own = Dict.get-insert ℕ_discrete c c error s.channels_poison in
      let set = Dict.get-insert ℕ_discrete c d error s.channels_poison in
      let gone =
        Dict.get-remove ℕ_discrete c d (Dict.insert ℕ_discrete c error s.channels_poison) in
      (ground (arith, own), ground (arith, set), ground (arith, set, gone))
