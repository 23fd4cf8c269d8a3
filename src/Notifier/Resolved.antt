-- ===== src/Notifier/Resolved.antt =====
-- src/notifier.rs: what holds of a notifier and of a task that polls it, and that each step keeps it.
use lapin.Base.{
  Bool, true, false, Option, none, some, ◌≡◌, refl, subst, ◌⊎◌, is_some, arith, if◌then◌else◌,
  Bool-cases, inl, inr,
}
use lapin.Notifier.{EventApi, arm, poll_listener}
use lapin.Notifier.Woken.{
  Phase, begins, unarmed, rechecks, polls, waits, resolved, Notifying, unnotified, stored, notified,
  World, task_step, with_listener,
}

-- The phases in which the task's listener is there, and those behind the second check.
abbrev pub needs_listener : Phase → Bool
needs_listener rechecks = true
needs_listener polls = true
needs_listener waits = true
needs_listener phase = false

abbrev pub is_checked : Phase → Bool
is_checked polls = true
is_checked waits = true
is_checked phase = false

abbrev pub is_resolved : Phase → Bool
is_resolved resolved = true
is_resolved phase = false

abbrev pub is_notified : Notifying → Bool
is_notified notified = true
is_notified n = false

abbrev is_unnotified : Notifying → Bool
is_unnotified unnotified = true
is_unnotified n = false

module _ {V L : Type 0} (api : EventApi V L) where
  -- What holds of the parts of a world.
  pub record Holds (done : Bool) (event : V) (waits_for : Option L) (phase : Phase)
      (notifying : Notifying) : Type 0 where
    pub listening : (l : L) → waits_for ≡ some l → api.registered l event ≡ true
    pub armed : needs_listener phase ≡ true → is_some waits_for ≡ true
    pub told :
        is_notified notifying ≡ true
        → is_checked phase ≡ true
        → (l : L) → waits_for ≡ some l
        → api.fired l event ≡ true
    pub set_first : is_unnotified notifying ≡ false → done ≡ true
    pub fires_after : (l : L) → waits_for ≡ some l → api.fired l event ≡ true → done ≡ true
    pub resolves_after : is_resolved phase ≡ true → done ≡ true

  abbrev pub IsSound : World V L → Type 0
  IsSound w =
      Holds w.notifier.done w.notifier.listener.event w.notifier.listener.waits_for w.phase
        w.notifying

  -- The phase alone changes, to one behind no check that it has not passed.
  pub to_phase :
      {done : Bool} {event : V} {waits_for : Option L} {phase : Phase} {notifying : Notifying}
      (next : Phase)
      → (needs_listener next ≡ true → needs_listener phase ≡ true)
      → (is_checked next ≡ true → (is_checked phase ≡ true) ⊎ (done ≡ false))
      → (is_resolved next ≡ true → done ≡ true)
      → Holds done event waits_for phase notifying
      → Holds done event waits_for next notifying
  to_phase next needs checks resolves h = record {
    listening = h.listening;
    armed = λ e. h.armed (needs e);
    told = λ n c l e. elim (checks c) [
      | inl before ↦ h.told n before l e
      | inr undone ↦ absurd (ground (arith, h.set_first))
    ];
    set_first = h.set_first;
    fires_after = h.fires_after;
    resolves_after = resolves;
  }

  pub listens_lem :
      {done : Bool} {event : V} {waits_for : Option L} {phase : Phase} {notifying : Notifying}
      → Holds done event waits_for phase notifying
      → Holds done (api.listen event).1 waits_for phase notifying
  listens_lem {event = event} h = record {
    listening = λ l e. api.registered-listen l event (h.listening l e);
    armed = h.armed;
    told = λ n c l e. ground (arith, api.fired-listen l event (h.listening l e), h.told n c l e);
    set_first = h.set_first;
    fires_after =
        λ l e f. h.fires_after l e (ground (arith, api.fired-listen l event (h.listening l e)));
    resolves_after = h.resolves_after;
  }

  pub stores_lem :
      {done : Bool} {event : V} {waits_for : Option L} {phase : Phase}
      → Holds done event waits_for phase unnotified
      → Holds true event waits_for phase stored
  stores_lem h = record {
    listening = h.listening;
    armed = h.armed;
    told = λ n c l e. absurd (ground (arith, n));
    set_first = λ e. refl;
    fires_after = λ l e f. refl;
    resolves_after = λ e. refl;
  }

  pub notifies_lem :
      {done : Bool} {event : V} {waits_for : Option L} {phase : Phase}
      → Holds done event waits_for phase stored
      → Holds done (api.notify event) waits_for phase notified
  notifies_lem {event = event} h = record {
    listening = λ l e. api.registered-notify l event (h.listening l e);
    armed = h.armed;
    told = λ n c l e. api.fired-notify l event (h.listening l e);
    set_first = λ e. h.set_first refl;
    fires_after = λ l e f. h.set_first refl;
    resolves_after = h.resolves_after;
  }

  arms_lem :
      {done : Bool} {event : V} {waits_for : Option L} {notifying : Notifying}
      → Holds done event waits_for unarmed notifying
      → Holds done
          (arm api (record { event = event; waits_for = waits_for })).event
          (arm api (record { event = event; waits_for = waits_for })).waits_for
          rechecks
          notifying
  unfolding arm
  arms_lem {event = event} {waits_for = some l} h = record {
    listening = h.listening;
    armed = λ e. refl;
    told = λ n c l' e. absurd (ground (arith, c));
    set_first = h.set_first;
    fires_after = h.fires_after;
    resolves_after = λ e. absurd (ground (arith, e));
  }
  arms_lem {event = event} {waits_for = none} h = record {
    listening = λ l e. ground (arith, e, api.listen-registered event);
    armed = λ e. refl;
    told = λ n c l' e. absurd (ground (arith, c));
    set_first = h.set_first;
    fires_after = λ l e f. absurd (ground (arith, e, f, api.listen-fired event));
    resolves_after = λ e. absurd (ground (arith, e));
  }

  polls_lem :
      {done : Bool} {event : V} {l : L} {notifying : Notifying}
      → Holds done event (some l) polls notifying
      → api.fired l event ≡ true
      → Holds done event none resolved notifying
  polls_lem {l = l} h f = record {
    listening = λ k e. absurd (ground (arith, e));
    armed = λ e. absurd (ground (arith, e));
    told = λ n c k e. absurd (ground (arith, e));
    set_first = h.set_first;
    fires_after = λ k e g. absurd (ground (arith, e));
    resolves_after = λ e. h.fires_after l refl f;
  }

  abbrev pub world : Bool → V → Option L → Phase → Notifying → World V L
  world done event waits_for phase notifying = record {
    notifier = record { done = done; listener = record { event = event; waits_for = waits_for } };
    phase = phase;
    notifying = notifying;
  }

  check_lem :
      (done : Bool) {event : V} {waits_for : Option L} {phase : Phase} {notifying : Notifying}
      (next : Phase)
      → (needs_listener next ≡ true → needs_listener phase ≡ true)
      → is_resolved next ≡ false
      → Holds done event waits_for phase notifying
      → Holds done event waits_for (if done then resolved else next) notifying
  check_lem true next needs unresolved h =
      to_phase resolved (λ e. absurd (ground (arith, e))) (λ e. absurd (ground (arith, e)))
        (λ e. refl) h
  check_lem false next needs unresolved h =
      to_phase next needs (λ e. inr refl) (λ e. absurd (ground (arith, e, unresolved))) h

  resolves_step :
      (done : Bool) (event : V) (l : L) (notifying : Notifying)
      → api.fired l event ≡ true
      → world done event none resolved notifying
        ≡ task_step api (world done event (some l) polls notifying)
  unfolding task_step poll_listener with_listener
  resolves_step done event l notifying f = ground (arith, f)

  waits_step :
      (done : Bool) (event : V) (l : L) (notifying : Notifying)
      → api.fired l event ≡ false
      → world done event (some l) waits notifying
        ≡ task_step api (world done event (some l) polls notifying)
  unfolding task_step poll_listener with_listener
  waits_step done event l notifying f = ground (arith, f)

  pub task_step_lem :
      (done : Bool) (event : V) (waits_for : Option L) (phase : Phase) (notifying : Notifying)
      → Holds done event waits_for phase notifying
      → IsSound (task_step api (world done event waits_for phase notifying))
  unfolding task_step poll_listener with_listener
  task_step_lem done event waits_for begins notifying h = check_lem done unarmed (λ e. e) refl h
  task_step_lem done event waits_for unarmed notifying h = arms_lem h
  task_step_lem done event waits_for rechecks notifying h = check_lem done polls (λ e. refl) refl h
  task_step_lem done event none polls notifying h = h
  task_step_lem done event (some l) polls notifying h = elim (Bool-cases (api.fired l event)) [
    | inl f ↦ subst IsSound (resolves_step done event l notifying f) (polls_lem h f)
    | inr f ↦
        subst IsSound (waits_step done event l notifying f)
          (to_phase waits (λ e. refl) (λ e. inl refl) (λ e. absurd (ground (arith, e))) h)
  ]
  task_step_lem done event waits_for waits notifying h = h
  task_step_lem done event waits_for resolved notifying h = h
