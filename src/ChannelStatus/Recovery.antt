-- ===== src/ChannelStatus/Recovery.antt =====
-- Recovery of a channel: which deliveries it disowns, which error it hands out, whom it wakes.
use lapin.Base.{
  ℕ, Bool, true, false, ◌||◌, ◌≡◌, refl, Option, none, some, List, [], ◌∷◌, arith, Bool-cases,
  Option-cases, inl, inr,
}
use lapin.Frame.{ExpectedReply}
use lapin.Receiver.{DeliveryCause}
use lapin.Error.{ChannelState, Error}
use lapin.ChannelStatus.{
  SwitchId, ChannelStatus, Store, is_dead, finalize_connection, set_confirm, set_state,
  set_send_flow, set_reconnecting, set_expected_replies, set_will_receive, set_content_length,
  receive,
}

-- Everything that changes a status.
pub data Operation (P K : Type 0) : Type 0 where
  reconnects : Error K → P → Operation P K
  finalizes : Operation P K
  confirms : Operation P K
  enters : ChannelState → Operation P K
  flows : Bool → Operation P K
  expects : Option (List (ExpectedReply P)) → Operation P K
  will_receive : ℕ → DeliveryCause → Operation P K
  header : ℕ → ℕ → Operation P K
  body : ℕ → Operation P K

abbrev pub is_reconnect : {P K : Type 0} → Operation P K → Bool
is_reconnect (reconnects e t) = true
is_reconnect _ = false

abbrev pub finalizing : {P K : Type 0} → Operation P K → Bool
finalizing finalizes = true
finalizing confirms = true
finalizing _ = false

unfoldable pub any {ℓ} : {A : Type ℓ} → (A → Bool) → List A → Bool
any p [] = false
any p (x ∷ xs) = p x || any p xs

abbrev or_same : {A : Type 0} → A → Option A → A
or_same s none = s
or_same s (some t) = t

module _ {P K : Type 0} where
  unfoldable pub perform : Operation P K → ChannelStatus P K → Store → ChannelStatus P K × Store
  perform (reconnects e t) s store =
      let (given, s', store') = set_reconnecting e t s store in (s', store')
  perform finalizes s store = ((finalize_connection s).0, store)
  perform confirms s store = ((set_confirm s).0, store)
  perform (enters state) s store = (set_state state s, store)
  perform (flows flow) s store = (set_send_flow flow s, store)
  perform (expects replies) s store = (or_same s (set_expected_replies replies s), store)
  perform (will_receive class_id cause) s store = ((set_will_receive class_id cause s).0, store)
  perform (header class_id length) s store = ((set_content_length class_id length s).0, store)
  perform (body length) s store = ((receive length s).0, store)

  unfoldable pub run : List (Operation P K) → ChannelStatus P K → Store → ChannelStatus P K × Store
  run [] s store = (s, store)
  run (o ∷ os) s store = let (s', store') = perform o s store in run os s' store'

  perform_dead :
      (o : Operation P K) (s : ChannelStatus P K) (store : Store) (k : SwitchId)
      → is_dead k store.dead ≡ true
      → is_dead k (perform o s store).1.dead ≡ true
  unfolding perform is_dead set_reconnecting
  perform_dead (reconnects e t) s store k h = elim (Option-cases s.recovery_context) [
    | inl n ↦ ground arith
    | inr m ↦ ground arith
  ]
  perform_dead finalizes s store k h = h
  perform_dead confirms s store k h = h
  perform_dead (enters x) s store k h = h
  perform_dead (flows x) s store k h = h
  perform_dead (expects x) s store k h = h
  perform_dead (will_receive x y) s store k h = h
  perform_dead (header x y) s store k h = h
  perform_dead (body x) s store k h = h

  run_dead :
      (os : List (Operation P K)) (s : ChannelStatus P K) (store : Store) (k : SwitchId)
      → is_dead k store.dead ≡ true
      → is_dead k (run os s store).1.dead ≡ true
  unfolding run
  run_dead [] s store k h = h
  run_dead (o ∷ os) s store k h =
      run_dead os (perform o s store).0 (perform o s store).1 k (perform_dead o s store k h)

  perform_reconnects :
      (o : Operation P K) (s : ChannelStatus P K) (store : Store)
      → is_reconnect o ≡ true
      → is_dead s.killswitch (perform o s store).1.dead ≡ true
  unfolding perform is_dead set_reconnecting
  perform_reconnects (reconnects e t) s store h = elim (Option-cases s.recovery_context) [
    | inl n ↦ ground (arith)
    | inr m ↦ ground (arith)
  ]
  perform_reconnects o s store h = ground arith

  -- Any other operation leaves the store and the switch alone.
  perform_others :
      (o : Operation P K) (s : ChannelStatus P K) (store : Store)
      → is_reconnect o ≡ false
      → ((perform o s store).1 ≡ store) × ((perform o s store).0.killswitch ≡ s.killswitch)
  unfolding perform finalize_connection set_confirm set_state set_send_flow set_expected_replies
      set_will_receive set_content_length receive
  perform_others (reconnects e t) s store h = (ground arith, ground arith)
  perform_others finalizes s store h = (refl, refl)
  perform_others confirms s store h = (refl, refl)
  perform_others (enters x) s store h = (refl, refl)
  perform_others (flows x) s store h = (refl, refl)
  perform_others (expects x) s store h =
      (refl, elim (Option-cases s.recovery_context) [ inl n ↦ ground arith | inr m ↦ ground arith ])
  perform_others (will_receive x y) s store h = (refl, refl)
  perform_others (header x y) s store h = (refl, refl)
  perform_others (body x) s store h = (refl, refl)

  run_killed :
      (os : List (Operation P K)) (s : ChannelStatus P K) (store : Store)
      → is_dead s.killswitch store.dead ≡ false
      → is_dead s.killswitch (run os s store).1.dead ≡ any is_reconnect os
  unfolding run any
  run_killed [] s store h = h
  run_killed (o ∷ os) s store h =
      let s' = (perform o s store).0 in
      let store' = (perform o s store).1 in
      elim (Bool-cases (is_reconnect o)) [
        | inl e ↦
            ground (arith, run_dead os s' store' s.killswitch (perform_reconnects o s store e))
        | inr e ↦
            let (kept, same) = perform_others o s store e in
            ground (arith, kept, same, run_killed os s' store' (ground (arith, kept, same, h)))
      ]

  -- The switch that a delivery gets from `set_will_receive`, on a status whose switch is not dead, is
  -- dead after any later operations exactly if one of them was a reconnection: a channel that
  -- enters another state, closed and error among them, leaves it alive.
  pub set_will_receive-killed :
      (class_id : ℕ) (cause : DeliveryCause) (os : List (Operation P K)) (s : ChannelStatus P K)
      (store : Store)
      → is_dead s.killswitch store.dead ≡ false
      → is_dead
          (set_will_receive class_id cause s).1
          (run os (set_will_receive class_id cause s).0 store).1.dead
        ≡ any is_reconnect os
  unfolding set_will_receive
  set_will_receive-killed class_id cause os s store h =
      run_killed os (set_will_receive class_id cause s).0 store h
