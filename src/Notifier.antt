-- ===== src/Notifier.antt =====
-- src/listener.rs and src/notifier.rs: a future that resolves once it has been notified. The event of
-- the crate event_listener is given by what it promises: a listener fires at the next call of
-- `notify` with all listeners, and not before. The event is shared by the clones of a listener; the
-- task that is polled is told by its listener alone.
pub mod Woken
pub mod Resolved
pub mod Wakes
use lapin.Base.{Bool, true, false, not, Option, none, some, ◌≡◌, is_some, if◌then◌else◌}
use lapin.SocketState.{Poll, ready, pending}

-- The crate event_listener: `registered` says that the listener is one of the event.
pub record EventApi (V L : Type 0) : Type 0 where
  pub listen : V → L × V
  pub notify : V → V
  pub fired : L → V → Bool
  pub registered : L → V → Bool
  pub listen-registered : (v : V) → registered (listen v).0 (listen v).1 ≡ true
  pub listen-fired : (v : V) → fired (listen v).0 (listen v).1 ≡ false
  pub registered-listen : (l : L) (v : V) → registered l v ≡ true → registered l (listen v).1 ≡ true
  pub fired-listen : (l : L) (v : V) → registered l v ≡ true → fired l (listen v).1 ≡ fired l v
  pub registered-notify : (l : L) (v : V) → registered l v ≡ true → registered l (notify v) ≡ true
  pub fired-notify : (l : L) (v : V) → registered l v ≡ true → fired l (notify v) ≡ true

pub record Listener (V L : Type 0) : Type 0 where
  pub event : V
  pub waits_for : Option L

pub record Notifier (V L : Type 0) : Type 0 where
  pub done : Bool
  pub listener : Listener V L

module _ {V L : Type 0} (api : EventApi V L) where
  unfoldable pub arm : Listener V L → Listener V L
  arm s =
      let (l, event) = api.listen s.event in
      if is_some s.waits_for then s else record { event = event; waits_for = some l }

  unfoldable pub disarm : Listener V L → Listener V L
  disarm s = record s { waits_for = none }

  -- `Listener::poll`; without `arm` before it, it panics: `none`.
  unfoldable pub poll_listener : Listener V L → Option (Poll (Unit {0}) × Listener V L)
  poll_listener s = elim s.waits_for [
    | none ↦ none
    | some l ↦
        if api.fired l s.event
        then some (ready tt, record s { waits_for = none })
        else some (pending, s)
  ]

  unfoldable pub notify : Listener V L → Listener V L
  notify s = record s { event = api.notify s.event }

  -- A clone shares the event.
  unfoldable pub clone : Listener V L → Listener V L
  clone s = record { event = s.event; waits_for = none }

  unfoldable pub notify_all : Notifier V L → Notifier V L
  unfolding notify
  notify_all n = record { done = true; listener = notify n.listener }

  unfoldable pub is_ready : Notifier V L → Bool
  is_ready n = n.done

  -- `Notifier::poll`, where nobody comes in between.
  unfoldable pub poll : Notifier V L → Option (Poll (Unit {0}) × Notifier V L)
  unfolding arm poll_listener is_ready
  poll n =
      let armed = arm n.listener in
      if is_ready n then some (ready tt, n) else elim (poll_listener armed) [
        | none ↦ none
        | some (polled, listener) ↦ some (polled, record n { listener = listener })
      ]
