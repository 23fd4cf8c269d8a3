-- ===== src/Channels/Recovering/Poisoned.antt =====
-- After a connection is lost no channel sends, and all of them wait.
use lapin.Base.{
  ℕ, ◌<◌, Bool, true, ◌&&◌, ◌≡◌, refl, ap, some, List, [], ◌∷◌, arith, is_some, Option, ◌++◌, All,
  Option-cases, inl, inr, length, ℕ_discrete, map,
}
use lapin.Base.Dict
use lapin.Frame.{ChannelId, PromiseId, AmqpFrame, FrameApi, ExpectedReply, rejected, reject}
use lapin.Error.{Error}
use lapin.Error
use lapin.ChannelStatus.{set_reconnecting, state_is}
use lapin.Frames.{Frames, check_poison, replies_of, cancel_reply, push, push_frames}
use lapin.Frames.Discard.{drop_frames_for_channel, poison_channel}
use lapin.Recovery.{init_recovery}
use lapin.Channel.{Channel}
use lapin.Channel.{of_frames}
use lapin.Frames.Replies.Steps.{clear_connection_steps_ends, step_promises}
use lapin.Channels.{Channels, Effects, by}
use lapin.Channels.Recovering.{
  Topology, Progress, recover_one, recover_each, recover_all, init_connection_recovery, topology,
}

module _ {P O A K : Type 0} where
  -- A channel that waits for a recovery, and whose pushes are rejected.
  unfoldable pub waits : Frames P (Error K) → Channel P O A K → Bool
  waits frames ch =
      state_is Error.reconnecting ch.status.state && is_some (check_poison ch.id frames)

  unfoldable pub all_wait : Frames P (Error K) → List (ChannelId × Channel P O A K) → Bool
  all_wait frames [] = true
  all_wait frames ((id, ch) ∷ channels) = waits frames ch && all_wait frames channels

  module _ (frame : AmqpFrame P) (canceler : PromiseId) (reply : Option (ExpectedReply P))
      (resolver : Option PromiseId) (fs : List (AmqpFrame P)) (promise : PromiseId) where
    -- A channel that waits for a recovery, where each of two pushes changes nothing and is rejected,
    -- with the one error: a push of a frame, whose expected reply is cancelled, and one of frames.
    abbrev pub Refuses : Frames P (Error K) → Channel P O A K → Type 0
    Refuses frames ch =
        (state_is Error.reconnecting ch.status.state ≡ true)
        × (err : Error K) × (push ch.id frame canceler reply resolver frames ≡ (
          frames,
          cancel_reply reply err
              ++ reject (record { canceler = some canceler; resolver = resolver }) err,
        ))
        × (push_frames ch.id fs promise frames ≡ (frames, rejected promise err ∷ []))

    pub waits-Refuses :
        (frames : Frames P (Error K)) (ch : Channel P O A K)
        → waits frames ch ≡ true
        → Refuses frames ch
    unfolding waits push push_frames
    waits-Refuses frames ch h = elim (Option-cases (check_poison ch.id frames)) [
      | inl e ↦ absurd (ground (arith, h, e))
      | inr (err, e) ↦ (ground (arith, h), err, ground (arith, e), ground (arith, e))
    ]

    pub all_wait-Refuses :
        (frames : Frames P (Error K)) (channels : List (ChannelId × Channel P O A K))
        → all_wait frames channels ≡ true
        → All (λ e. Refuses frames e.1) channels
    unfolding all_wait
    all_wait-Refuses frames [] h = tt
    all_wait-Refuses frames ((id, ch) ∷ channels) h = (
      waits-Refuses frames ch (ground (arith, h)),
      all_wait-Refuses frames channels (ground (arith, h)),
    )

  module _ (api : FrameApi P) (pack : Topology P O A K → P) where
    recover_one-keeps :
        (c : ChannelId) (ch : Channel P O A K) (p : Progress P K)
        → is_some (check_poison c p.frames) ≡ true
        → is_some (check_poison c (recover_one api pack ch p).1.frames) ≡ true
    unfolding recover_one init_recovery drop_frames_for_channel poison_channel check_poison
    recover_one-keeps c ch p h = ground (
      arith,
      h,
      Dict.get-insert ℕ_discrete ch.id c
          (set_reconnecting p.cause (pack (topology ch)) ch.status p.store).0
          p.frames.channels_poison,
    )

    recover_one-waits :
        (ch : Channel P O A K) (p : Progress P K)
        → let (ch', q, effects) = recover_one api pack ch p in waits q.frames ch' ≡ true
    unfolding recover_one init_recovery drop_frames_for_channel poison_channel check_poison waits
        set_reconnecting
    recover_one-waits ch p =
        let own =
          Dict.get-insert ℕ_discrete ch.id ch.id
            (set_reconnecting p.cause (pack (topology ch)) ch.status p.store).0
            p.frames.channels_poison in
        ground (arith, own)

    all_wait-keeps :
        (ch : Channel P O A K) (channels : List (ChannelId × Channel P O A K)) (p : Progress P K)
        → all_wait p.frames channels ≡ true
        → all_wait (recover_one api pack ch p).1.frames channels ≡ true
    unfolding all_wait waits
    all_wait-keeps ch [] p h = refl
    all_wait-keeps ch ((id, c) ∷ channels) p h =
        ground (arith, h, all_wait-keeps ch channels p, recover_one-keeps c.id ch p)

    recover_each-keeps :
        (c : ChannelId) (channels : List (ChannelId × Channel P O A K)) (p : Progress P K)
        → is_some (check_poison c p.frames) ≡ true
        → is_some (check_poison c (recover_each api pack channels p).1.frames) ≡ true
    unfolding recover_each
    recover_each-keeps c [] p h = h
    recover_each-keeps c ((id, ch) ∷ channels) p h =
        recover_each-keeps c channels (recover_one api pack ch p).1 (recover_one-keeps c ch p h)

    recover_each-all_wait :
        (channels : List (ChannelId × Channel P O A K)) (p : Progress P K)
        → let (channels', q, effects) = recover_each api pack channels p in
          all_wait q.frames channels' ≡ true
    unfolding recover_each all_wait waits
    recover_each-all_wait [] p = refl
    recover_each-all_wait ((id, ch) ∷ channels) p =
        let (ch', q, effects) = recover_one api pack ch p in
        ground (
          arith,
          recover_one-waits ch p,
          recover_each-all_wait channels q,
          recover_each-keeps ch'.id channels q,
        )

    recover_each-keys :
        (channels : List (ChannelId × Channel P O A K)) (p : Progress P K)
        → Dict.keys (recover_each api pack channels p).0 ≡ Dict.keys channels
    unfolding recover_each
    recover_each-keys [] p = refl
    recover_each-keys ((id, ch) ∷ channels) p =
        ap (λ ids. id ∷ ids) (recover_each-keys channels (recover_one api pack ch p).1)

    -- Given more fuel than channel 0 waits for replies, a lost connection leaves it and every channel of
    -- the map, which are those of before, waiting for the recovery, with every push on it rejected.
    pub init_connection_recovery_lem :
        (fuel : ℕ) (e : Error K) (cs : Channels P O A K)
        → length (replies_of 0 cs.frames) < fuel
        → (err : Error K) × (cs' : Channels P O A K) × (effects : Effects P K)
          × (init_connection_recovery api pack fuel e cs ≡ some (err, cs', effects))
          × (Dict.keys cs'.channels ≡ Dict.keys cs.channels)
          × (all_wait cs'.frames cs'.channels ≡ true)
          × (waits cs'.frames cs'.channel0 ≡ true)
    unfolding init_connection_recovery recover_all
    init_connection_recovery_lem fuel e cs h =
        let (t, cleared) = clear_connection_steps_ends fuel e cs.frames h in
        let steps =
          by 0 (map of_frames (map (λ p. rejected p e) (step_promises (replies_of 0 cs.frames)))) in
        let (err, cs', effects) = recover_all api pack e steps t cs in
        let start : Progress P K = record { cause = e; frames = t; store = cs.store } in
        let (channels, p, more) = recover_each api pack cs.channels start in
        (
          err,
          cs',
          effects,
          ground (arith, cleared),
          recover_each-keys cs.channels start,
          all_wait-keeps cs.channel0 channels p (recover_each-all_wait cs.channels start),
          recover_one-waits cs.channel0 p,
        )
