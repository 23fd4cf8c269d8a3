-- ===== src/Notifier/Woken.antt =====
-- src/notifier.rs: a task that polls while another thread notifies, each in its atomic steps, in any
-- order, and while other clones listen.
use lapin.Base.{true, none, some, List, [], ◌∷◌, if◌then◌else◌}
use lapin.SocketState.{ready, pending}
use lapin.Notifier.{EventApi, Listener, Notifier, arm, notify, poll_listener}

-- Where the task is in `poll`: before the first check, before `arm`, before the second check, before
-- the poll of the listener, or it has returned, `Pending` or `Ready`.
pub data Phase : Type 0 where
  begins unarmed rechecks polls waits resolved : Phase

-- Where the other thread is in `notify_all`.
pub data Notifying : Type 0 where
  unnotified stored notified : Notifying

pub record World (V L : Type 0) : Type 0 where
  pub notifier : Notifier V L
  pub phase : Phase
  pub notifying : Notifying

-- A step of the task, a further poll of a task that waits, a step of `notify_all`, or another
-- clone that starts to listen.
pub data Move : Type 0 where
  task poll_again notifies listens : Move

module _ {V L : Type 0} (api : EventApi V L) where
  unfoldable pub with_listener : Listener V L → World V L → World V L
  with_listener s w = record w { notifier = record w.notifier { listener = s } }

  unfoldable pub task_step : World V L → World V L
  unfolding with_listener
  task_step w = elim w.phase [
    | begins ↦ record w { phase = if w.notifier.done then resolved else unarmed }
    | unarmed ↦ record (with_listener (arm api w.notifier.listener) w) { phase = rechecks }
    | rechecks ↦ record w { phase = if w.notifier.done then resolved else polls }
    | polls ↦ elim (poll_listener api w.notifier.listener) [
      | none ↦ w
      | some (ready t, s) ↦ record (with_listener s w) { phase = resolved }
      | some (pending, s) ↦ record (with_listener s w) { phase = waits }
    ]
    | waits ↦ w
    | resolved ↦ w
  ]

  unfoldable pub move : Move → World V L → World V L
  unfolding task_step with_listener
  move task w = task_step w
  move poll_again w = elim w.phase [ waits ↦ record w { phase = begins } | _ ↦ w ]
  move notifies w = elim w.notifying [
    | unnotified ↦ record w { notifier = record w.notifier { done = true }; notifying = stored }
    | stored ↦ record (with_listener (notify api w.notifier.listener) w) { notifying = notified }
    | notified ↦ w
  ]
  move listens w =
      with_listener
        (record w.notifier.listener { event = (api.listen w.notifier.listener.event).1 }) w

  unfoldable pub moves : List Move → World V L → World V L
  unfolding move
  moves [] w = w
  moves (m ∷ ms) w = moves ms (move m w)
