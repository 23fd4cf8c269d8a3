-- ===== src/Promise.antt =====
-- src/promise.rs: the cell that a promise and its resolvers share, and the wakes of its listener.
pub mod First
use lapin.Base.{ℕ, suc, Option, none, some}
use lapin.Acker.{Result, ok, err}

-- `Shared`: the data behind its lock; `wakes` counts the calls of `notify` on the listener.
pub record Promise (E A : Type 0) : Type 0 where
  pub value : Option (Result E A)
  pub wakes : ℕ

module _ {E A : Type 0} where
  unfoldable pub build : Option (Result E A) → Promise E A
  build value = record { value = value; wakes = 0 }

  -- `Shared::set`: only an empty cell takes the result.
  unfoldable pub set : Result E A → Promise E A → Promise E A
  set result p = elim p.value [
    | some first ↦ p
    | none ↦ record { value = some result; wakes = suc p.wakes }
  ]

  unfoldable pub resolve : A → Promise E A → Promise E A
  resolve a p = set (ok a) p

  unfoldable pub reject : E → Promise E A → Promise E A
  reject e p = set (err e) p

  -- `Shared::take`, which `try_wait` and a poll that is ready call.
  unfoldable pub try_wait : Promise E A → Option (Result E A) × Promise E A
  try_wait p = (p.value, record p { value = none })
