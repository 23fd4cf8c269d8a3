-- ===== src/Notifier/Wakes.antt =====
-- src/notifier.rs: no wakeup is lost, and none comes before `notify_all`.
use lapin.Base.{
  Bool, true, false, Option, none, some, List, [], ◌∷◌, ◌≡◌, refl, arith, inl, inr, Option-cases,
}
use lapin.Notifier.{EventApi, notify}
use lapin.Notifier.Woken.{
  Phase, begins, unarmed, rechecks, polls, waits, resolved, Notifying, unnotified, stored, notified,
  World, Move, task, poll_again, notifies, listens, with_listener, move, moves,
}
use lapin.Notifier.Resolved.{
  needs_listener, is_checked, is_resolved, is_notified, Holds, IsSound, to_phase, listens_lem,
  stores_lem, notifies_lem, world, task_step_lem,
}

abbrev pub is_waiting : Phase → Bool
is_waiting waits = true
is_waiting phase = false

waiting_needs : (p : Phase) → is_waiting p ≡ true → needs_listener p ≡ true
waiting_needs waits e = refl
waiting_needs begins e = absurd (ground (arith, e))
waiting_needs unarmed e = absurd (ground (arith, e))
waiting_needs rechecks e = refl
waiting_needs polls e = refl
waiting_needs resolved e = absurd (ground (arith, e))

waiting_checked : (p : Phase) → is_waiting p ≡ true → is_checked p ≡ true
waiting_checked waits e = refl
waiting_checked begins e = absurd (ground (arith, e))
waiting_checked unarmed e = absurd (ground (arith, e))
waiting_checked rechecks e = absurd (ground (arith, e))
waiting_checked polls e = refl
waiting_checked resolved e = absurd (ground (arith, e))

module _ {V L : Type 0} (api : EventApi V L) where
  move_lem :
      (m : Move) (done : Bool) (event : V) (waits_for : Option L) (phase : Phase)
      (notifying : Notifying)
      → Holds api done event waits_for phase notifying
      → IsSound api (move api m (world api done event waits_for phase notifying))
  unfolding move with_listener notify
  move_lem task done event waits_for phase notifying h =
      task_step_lem api done event waits_for phase notifying h
  move_lem poll_again done event waits_for waits notifying h =
      to_phase api begins (λ e. refl) (λ e. absurd (ground (arith, e)))
        (λ e. absurd (ground (arith, e))) h
  move_lem poll_again done event waits_for begins notifying h = h
  move_lem poll_again done event waits_for unarmed notifying h = h
  move_lem poll_again done event waits_for rechecks notifying h = h
  move_lem poll_again done event waits_for polls notifying h = h
  move_lem poll_again done event waits_for resolved notifying h = h
  move_lem notifies done event waits_for phase unnotified h = stores_lem api h
  move_lem notifies done event waits_for phase stored h = notifies_lem api h
  move_lem notifies done event waits_for phase notified h = h
  move_lem listens done event waits_for phase notifying h = listens_lem api h

  moves_lem : (ms : List Move) (w : World V L) → IsSound api w → IsSound api (moves api ms w)
  unfolding moves
  moves_lem [] w h = h
  moves_lem (m ∷ ms) w h = moves_lem ms (move api m w) (
      move_lem m w.notifier.done w.notifier.listener.event w.notifier.listener.waits_for w.phase
        w.notifying h)

  begins_lem : (event : V) → IsSound api (world api false event none begins unnotified)
  begins_lem event = record {
    listening = λ l e. absurd (ground (arith, e));
    armed = λ e. absurd (ground (arith, e));
    told = λ n c l e. absurd (ground (arith, e));
    set_first = λ e. absurd (ground (arith, e));
    fires_after = λ l e f. absurd (ground (arith, e));
    resolves_after = λ e. absurd (ground (arith, e));
  }

  -- From a new notifier, after any sequence of steps of a task that polls it, also when it need
  -- not, of the thread that notifies, and of clones that begin to listen: a task that has
  -- been told `Ready` has been told after `notify_all` had begun; and where `notify_all` has ended
  -- and the task has been told `Pending`, its listener has fired, which wakes it.
  pub moves_wake :
      (ms : List Move) (event : V)
      → let w = moves api ms (record {
        notifier = record { done = false; listener = record { event = event; waits_for = none } };
        phase = begins;
        notifying = unnotified;
      }) in
        (is_resolved w.phase ≡ true → w.notifier.done ≡ true)
        × (is_notified w.notifying ≡ true
            → is_waiting w.phase ≡ true
            → (l : L) × (w.notifier.listener.waits_for ≡ some l)
              × (api.fired l w.notifier.listener.event ≡ true))
  moves_wake ms event =
      let w = moves api ms (world api false event none begins unnotified) in
      let h : IsSound api w =
        moves_lem ms (world api false event none begins unnotified) (begins_lem event) in
      (
        h.resolves_after,
        λ n p. elim (Option-cases w.notifier.listener.waits_for) [
          | inl e ↦ absurd (ground (arith, e, p, waiting_needs w.phase p, h.armed))
          | inr (l, e) ↦ (l, e, h.told n (waiting_checked w.phase p) l e)
        ],
      )
