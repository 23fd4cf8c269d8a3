-- ===== src/Frames/Replies/Steps.antt =====
-- The connection steps that wait on channel 0: `clear_connection_steps` ends and clears them all.
use lapin.Base.{
  ℕ, zero, suc, ◌<◌, ◌≡◌, refl, ◌⊎◌, inl, inr, Option-cases, Bool, false, not, none, some, List, [],
  ◌∷◌, map, arith, length, retain, ℕ_discrete,
}
use lapin.Base.Dict
use lapin.Frame.{
  PromiseId, rejected, ConnectionStep, into_connection_resolver, Reply, connection_step,
  basic_cancel_ok, channel_close_ok, other, ExpectedReply,
}
use lapin.Frames.{Frames, replies_of}
use lapin.Frames.Replies.{
  take_first, is_connection_step, put_replies, find_expected_reply, find_connection_step,
  connection_resolver, clear_connection_steps,
}

module _ {P : Type 0} where
  abbrev waits_step : ExpectedReply P → Bool
  waits_step r = is_connection_step r.reply

  -- The resolvers of the connection steps in a list of expected replies, in order.
  abbrev pub step_promises : List (ExpectedReply P) → List PromiseId
  step_promises [] = []
  step_promises (r ∷ rs) =
      let rest = step_promises rs in
      elim r.reply [
        | connection_step step ↦ (into_connection_resolver step).0 ∷ rest
        | basic_cancel_ok p ↦ rest
        | channel_close_ok p ↦ rest
        | other p ↦ rest
      ]

  -- The replies that are no connection steps, in order.
  abbrev pub without_steps : List (ExpectedReply P) → List (ExpectedReply P)
  without_steps = retain (λ r. not (is_connection_step r.reply))

  reply_cases :
      (x : Reply P)
      → ((step : ConnectionStep P) × (x ≡ connection_step step)) ⊎ (is_connection_step x ≡ false)
  reply_cases (connection_step step) = inl (step, refl)
  reply_cases (basic_cancel_ok p) = inr refl
  reply_cases (channel_close_ok p) = inr refl
  reply_cases (other p) = inr refl

  -- Taking the first step takes its promise, and leaves what is no step.
  take_step :
      (rs : List (ExpectedReply P))
      → ((take_first waits_step rs ≡ none) × (step_promises rs ≡ []) × (without_steps rs ≡ rs))
        ⊎ ((r : ExpectedReply P) × (rest : List (ExpectedReply P)) × (step : ConnectionStep P)
            × (take_first waits_step rs ≡ some (r, rest))
            × (r.reply ≡ connection_step step)
            × (step_promises rs ≡ (into_connection_resolver step).0 ∷ step_promises rest)
            × (without_steps rest ≡ without_steps rs)
            × (length rs ≡ suc (length rest)))
  unfolding take_first
  take_step [] = inl (refl, refl, refl)
  take_step (r ∷ rs) = elim (reply_cases r.reply) [
    | inl (step, e) ↦ inr (r, rs, step, rw e, e, rw e, rw e, refl)
    | inr e ↦ elim (take_step rs) [
      | inl (ft, fp, fw) ↦ inl (ground arith, ground arith, ground arith)
      | inr (x, rest, step, ft, fr, fp, fw, fl) ↦
          inr (x, r ∷ rest, step, ground arith, fr, ground arith, ground arith, omega arith)
    ]
  ]

module _ {P E : Type 0} where
  no_step_found :
      (s : Frames P E) (rs : List (ExpectedReply P))
      → Dict.get ℕ_discrete 0 s.expected_replies ≡ some rs
      → take_first waits_step rs ≡ none
      → connection_resolver 0 s ≡ (none, s)
  unfolding connection_resolver find_connection_step find_expected_reply
  no_step_found s rs e f = ground arith

  step_found :
      (s : Frames P E) (rs rest : List (ExpectedReply P)) (r : ExpectedReply P)
      (step : ConnectionStep P)
      → Dict.get ℕ_discrete 0 s.expected_replies ≡ some rs
      → take_first waits_step rs ≡ some (r, rest)
      → r.reply ≡ connection_step step
      → connection_resolver 0 s ≡ (some (into_connection_resolver step).0, put_replies 0 rest s)
  unfolding connection_resolver find_connection_step find_expected_reply
  step_found s rs rest r step e f g = ground arith

  -- With more fuel than channel 0 has expected replies, `clear_connection_steps` ends: it rejects
  -- the resolver of every connection step in order, and leaves on channel 0 the replies that are
  -- no steps, in order, and the queues and poisons as they were.
  pub clear_connection_steps_lem :
      (fuel : ℕ) (error : E) (s : Frames P E) (rs : List (ExpectedReply P))
      → Dict.get ℕ_discrete 0 s.expected_replies ≡ some rs
      → length rs < fuel
      → (t : Frames P E) × (clear_connection_steps fuel error s
          ≡ some (t, map (λ p. rejected p error) (step_promises rs)))
        × (Dict.get ℕ_discrete 0 t.expected_replies ≡ some (without_steps rs))
        × (t ≡ record s { expected_replies = t.expected_replies })
  unfolding clear_connection_steps put_replies
  clear_connection_steps_lem zero error s rs e h = absurd (omega arith)
  clear_connection_steps_lem (suc fuel) error s rs e h = elim (take_step rs) [
    | inl (ft, fp, fw) ↦ (s, ground (arith, no_step_found s rs e ft), rw fw e, refl)
    | inr (r, rest, step, ft, fr, fp, fw, fl) ↦
        let (t, run, left, same) =
          clear_connection_steps_lem fuel error (put_replies 0 rest s) rest
            (ground (arith, Dict.get-insert ℕ_discrete 0 0 rest s.expected_replies))
            (omega arith) in
        (t, ground (arith, step_found s rs rest r step e ft fr, run), rw (← fw) left, rw same)
  ]

  -- The loop ends also where channel 0 has no entry for replies.
  pub clear_connection_steps_ends :
      (fuel : ℕ) (error : E) (s : Frames P E)
      → length (replies_of 0 s) < fuel
      → (t : Frames P E) × (clear_connection_steps fuel error s
          ≡ some (t, map (λ p. rejected p error) (step_promises (replies_of 0 s))))
  unfolding clear_connection_steps connection_resolver find_connection_step find_expected_reply
      replies_of
  clear_connection_steps_ends zero error s h = absurd (omega arith)
  clear_connection_steps_ends (suc fuel) error s h =
      elim (Option-cases (Dict.get ℕ_discrete 0 s.expected_replies)) [
        | inl e ↦ (s, ground (arith, e))
        | inr (rs, e) ↦
            let (t, run, left, same) =
              clear_connection_steps_lem (suc fuel) error s rs e (ground (arith, e, h)) in
            (t, ground (arith, e, run))
      ]
