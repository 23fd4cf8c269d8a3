-- ===== src/Promise/First.antt =====
-- Of all completions of a promise, the first counts.
use lapin.Base.{◌≡◌, refl, none, some, List, [], ◌∷◌, arith}
use lapin.Acker.{Result, ok, err}
use lapin.Promise.{Promise, set, resolve, reject, try_wait, build}

pub data Completion (E A : Type 0) : Type 0 where
  resolves : A → Completion E A
  rejects : E → Completion E A

abbrev pub outcome : {E A : Type 0} → Completion E A → Result E A
outcome (resolves a) = ok a
outcome (rejects e) = err e

module _ {E A : Type 0} where
  unfoldable pub complete_all : List (Completion E A) → Promise E A → Promise E A
  complete_all [] p = p
  complete_all (resolves a ∷ cs) p = complete_all cs (resolve a p)
  complete_all (rejects e ∷ cs) p = complete_all cs (reject e p)

  complete_all-full :
      (cs : List (Completion E A)) (p : Promise E A) (r : Result E A)
      → p.value ≡ some r
      → complete_all cs p ≡ p
  unfolding complete_all set resolve reject
  complete_all-full [] p r h = refl
  complete_all-full (resolves a ∷ cs) p r h = ground (arith, h, complete_all-full cs p r h)
  complete_all-full (rejects e ∷ cs) p r h = ground (arith, h, complete_all-full cs p r h)

  -- Whatever sequence of resolutions and rejections completes a new promise, waiting for it gives
  -- the first of them, which alone has woken the waiter, and leaves nothing to wait for.
  pub try_wait-complete_all :
      (c : Completion E A) (cs : List (Completion E A))
      → try_wait (complete_all (c ∷ cs) (build none))
        ≡ (some (outcome c), record { value = none; wakes = 1 })
  unfolding complete_all set resolve reject try_wait build
  try_wait-complete_all (resolves a) cs =
      rw (complete_all-full cs (record { value = some (ok a); wakes = 1 }) (ok a) refl)
  try_wait-complete_all (rejects e) cs =
      rw (complete_all-full cs (record { value = some (err e); wakes = 1 }) (err e) refl)
