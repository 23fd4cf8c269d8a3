-- ===== src/Sequence/Cycle.antt =====
-- What `next` hands out: the range, the full cycle, and its agreement with `current`.
use native.Mathlib.Nat.{mod-lt, mod-eq_of_lt, suc-mod}
use lapin.Base.{
  ℕ, zero, suc, ◌+◌, ◌%◌, ◌≤◌, ◌<◌, ◌≡◌, false, none, some, arith, ◌==◌, ==→eq, Bool-cases, inl,
  inr, if◌then◌else◌,
}
use lapin.Sequence.{IdSequence, new, current, set_max, next, advance}

-- The two reductions that `next` makes below the integer's size.
small : (n size : ℕ) → n < size → n % size ≡ n
small n size h = mod-eq_of_lt h

-- A sequence bounded by `max`, with its next id within reach of the bound.
pub record IsBounded (max : ℕ) (s : IdSequence) : Type 0 where
  pub no_zero : s.allow_zero ≡ false
  pub bound : s.max ≡ some max
  pub below : s.id ≤ max

-- In a bounded sequence `next` hands out an id from 1 to the bound, and keeps the sequence bounded.
pub next-IsBounded :
    (size max : ℕ) (s : IdSequence)
    → 0 < max
    → max < size
    → IsBounded max s
    → (1 ≤ (next size s).0) × ((next size s).0 ≤ max) × IsBounded max (next size s).1
unfolding next
next-IsBounded size max s p q b =
    ground (arith, small (s.id + 1) size, small 1 size, small 2 size, small (s.id + 2) size)

-- After a call of `next` that does not wrap at the integer's size, `current` is the id that it
-- handed out, whether or not the sequence allows 0 and whatever its bound.
pub current-next :
    (size : ℕ) (s : IdSequence) → s.id + 2 < size → current (next size s).1 ≡ some (next size s).0
unfolding next current
current-next size s h =
    ground
      (arith, small (s.id + 1) size, small (s.id + 1 + 1) size, small ((s.id + 1) % size + 1) size)

abbrev resting : ℕ → ℕ → ℕ
resting max k = if k % max == 0 then 0 else k % max + 1

wrap : (r max : ℕ) → r < max → suc r % max ≡ (if r + 1 == max then 0 else r + 1)
wrap r max h = elim (Bool-cases (r + 1 == max)) [
  | inl e ↦ let e' : suc r ≡ max = omega (arith, ==→eq (r + 1) max e) in rw (e, e') (grind arith)
  | inr e ↦ rw e (ground (arith, small (suc r) max))
]

next_mod : (max k : ℕ) → 0 < max → suc k % max ≡ (if k % max + 1 == max then 0 else k % max + 1)
next_mod max k h = rw suc-mod (wrap (k % max) max (mod-lt k h))

-- The state after `k` calls from a fresh sequence.
advance-new :
    (size max k : ℕ)
    → 0 < max
    → max < size
    → advance size k (set_max max (new false))
      ≡ record { allow_zero = false; max = some max; id = resting max k }
unfolding advance new set_max next
advance-new size max zero p q = ground arith
advance-new size max (suc k) p q = rw (advance-new size max k p q) (
    ground (
      arith,
      mod-lt k p,
      next_mod max k p,
      small 1 size,
      small 2 size,
      small (k % max + 1) size,
      small (k % max + 1 + 1) size,
    ))

-- Call number `k`, counted from 0, of a fresh sequence bounded by `max` hands out `k % max + 1`:
-- the ids from 1 to `max` come in turn, and then again from 1.
pub next-cycle :
    (size max k : ℕ)
    → 0 < max
    → max < size
    → (next size (advance size k (set_max max (new false)))).0 ≡ k % max + 1
unfolding next
next-cycle size max k p q =
    rw (advance-new size max k p q) (ground (arith, mod-lt k p, small 1 size))

-- An unbounded sequence hands out an id that is not below the next one, and goes on behind it.
pub next_unbounded :
    (size : ℕ) (s : IdSequence)
    → s.allow_zero ≡ false
    → s.max ≡ none
    → s.id + 2 < size
    → (s.id ≤ (next size s).0)
      × ((next size s).1 ≡ record { allow_zero = false; max = none; id = (next size s).0 + 1 })
unfolding next
next_unbounded size s z m h =
    ground
      (arith, small (s.id + 1) size, small (s.id + 1 + 1) size, small ((s.id + 1) % size + 1) size)
