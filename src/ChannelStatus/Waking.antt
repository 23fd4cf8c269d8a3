-- ===== src/ChannelStatus/Waking.antt =====
-- Recovery of a channel, seen from its errors: the one it hands out, and whom its end wakes.
use lapin.Base.{false, ◌≡◌, refl, none, some, List, [], ◌∷◌, arith}
use lapin.Frame.{cancel_expected_replies}
use lapin.Error.{Error, with_notifier}
use lapin.ChannelStatus.{
  ChannelRecoveryContext, Effect, notified, set_channel_status, replies_canceled, ChannelStatus,
  Store, new_context, finalize_recovery, finalize_connection, set_state, set_send_flow,
  set_reconnecting, set_expected_replies, set_will_receive, set_content_length, receive,
}
use lapin.ChannelStatus.Recovery.{
  Operation, reconnects, finalizes, confirms, enters, flows, expects, will_receive, header, body,
  finalizing, any, perform, run,
}

module _ {P K : Type 0} where
  -- A recovery that began with this context is under way.
  abbrev Lasts : ChannelRecoveryContext P K → ChannelStatus P K → Type 0
  Lasts ctx s =
      (ctx' : ChannelRecoveryContext P K) × (s.recovery_context ≡ some ctx')
      × (ctx'.cause ≡ ctx.cause)
      × (ctx'.notifier ≡ ctx.notifier)

  perform-Lasts :
      (o : Operation P K) (ctx : ChannelRecoveryContext P K) (s : ChannelStatus P K) (store : Store)
      → finalizing o ≡ false
      → Lasts ctx s
      → Lasts ctx (perform o s store).0
  unfolding perform set_state set_send_flow set_reconnecting set_expected_replies set_will_receive
      set_content_length receive
  perform-Lasts (reconnects e t) ctx s store h (ctx', c, k, l) = (ctx', ground (arith, c), k, l)
  perform-Lasts (expects replies) ctx s store h (ctx', c, k, l) =
      (record ctx' { expected_replies = replies }, ground (arith, c), k, l)
  perform-Lasts finalizes ctx s store h l = ground arith
  perform-Lasts confirms ctx s store h l = ground arith
  perform-Lasts (enters x) ctx s store h l = l
  perform-Lasts (flows x) ctx s store h l = l
  perform-Lasts (will_receive x y) ctx s store h l = l
  perform-Lasts (header x y) ctx s store h l = l
  perform-Lasts (body x) ctx s store h l = l

  run-Lasts :
      (os : List (Operation P K)) (ctx : ChannelRecoveryContext P K) (s : ChannelStatus P K)
      (store : Store)
      → any finalizing os ≡ false
      → Lasts ctx s
      → Lasts ctx (run os s store).0
  unfolding run any
  run-Lasts [] ctx s store h l = l
  run-Lasts (o ∷ os) ctx s store h l =
      run-Lasts os ctx (perform o s store).0 (perform o s store).1 (ground arith)
        (perform-Lasts o ctx s store (ground arith) l)

  abbrev canceled : ChannelRecoveryContext P K → List (Effect K)
  canceled ctx = elim ctx.expected_replies [
    | none ↦ []
    | some replies ↦ replies_canceled (cancel_expected_replies replies ctx.cause) ∷ []
  ]

  begin_Lasts :
      (error : Error K) (topology : P) (s : ChannelStatus P K) (store : Store)
      → s.recovery_context ≡ none
      → ((set_reconnecting error topology s store).0 ≡ with_notifier (some store.notifiers) error)
        × Lasts
            (new_context error topology store.notifiers)
            (set_reconnecting error topology s store).1
  unfolding set_reconnecting new_context
  begin_Lasts error topology s store n = (
    ground (arith, n),
    (new_context error topology store.notifiers, ground (arith, n), refl, refl),
  )

  Lasts-hands_out :
      (ctx : ChannelRecoveryContext P K) (error : Error K) (topology : P) (s : ChannelStatus P K)
      (store : Store)
      → Lasts ctx s
      → (set_reconnecting error topology s store).0 ≡ ctx.cause
  unfolding set_reconnecting
  Lasts-hands_out ctx error topology s store (ctx', c, k, l) = ground (arith, c, k)

  Lasts-wakes :
      (ctx : ChannelRecoveryContext P K) (s : ChannelStatus P K)
      → Lasts ctx s
      → (rest : List (Effect K)) × ((finalize_connection s).1
          ≡ set_channel_status s.id s.killswitch ∷ notified ctx.notifier ∷ rest)
  unfolding finalize_connection finalize_recovery
  Lasts-wakes ctx s (ctx', c, k, l) = (canceled ctx', ground (arith, c, l))

  -- A recovery that begins where there was none hands out its error, with its notifier attached;
  -- whatever follows short of its end, another failure hands out the same error, and the end
  -- notifies that notifier, after the RPC task has the channel's switch.
  pub set_reconnecting-finalize_connection :
      (error next : Error K) (topology next_topology : P) (os : List (Operation P K))
      (s : ChannelStatus P K) (store : Store)
      → s.recovery_context ≡ none
      → any finalizing os ≡ false
      → let (given, s', store') = set_reconnecting error topology s store in
        let (now, now_store) = run os s' store' in
        (given ≡ with_notifier (some store.notifiers) error)
        × ((set_reconnecting next next_topology now now_store).0 ≡ given)
        × (rest : List (Effect K)) × ((finalize_connection now).1
            ≡ set_channel_status now.id now.killswitch ∷ notified store.notifiers ∷ rest)
  unfolding new_context
  set_reconnecting-finalize_connection error next topology next_topology os s store n h =
      let ctx = new_context error topology store.notifiers in
      let s' = (set_reconnecting error topology s store).1 in
      let store' = (set_reconnecting error topology s store).2 in
      let now = (run os s' store').0 in
      let now_store = (run os s' store').1 in
      let (given, begun) = begin_Lasts error topology s store n in
      let lasts = run-Lasts os ctx s' store' h begun in
      let (rest, wakes) = Lasts-wakes ctx now lasts in
      (
        given,
        ground (arith, given, Lasts-hands_out ctx next next_topology now now_store lasts),
        rest,
        wakes,
      )
