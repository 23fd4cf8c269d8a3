-- ===== src/Sequence.antt =====
-- src/id_sequence.rs: the generator of channel ids (`u16`) and delivery tags (`u64`).
-- `zero` and `one` of the source are the numbers 0 and 1, and `T` is the numbers below `size`, a
-- power of two, at which `+=` wraps.
pub mod Cycle
use lapin.Base.{
  ℕ, zero, suc, ◌+◌, ◌-◌, ◌%◌, Bool, true, false, not, ◌&&◌, Option, none, some, leb, ◌==◌,
  if◌then◌else◌,
}

pub record IdSequence : Type 0 where
  pub allow_zero : Bool
  pub max : Option ℕ
  pub id : ℕ

unfoldable pub new : Bool → IdSequence
new allow_zero = record { allow_zero = allow_zero; max = none; id = 0 }

first : IdSequence → ℕ
first s = if s.allow_zero then 0 else 1

-- `id - one` runs only at `first < id`, so truncated `-` is exact.
unfoldable pub current : IdSequence → Option ℕ
unfolding first
current s = if leb s.id (first s) then s.max else some (s.id - 1)

unfoldable pub set_max : ℕ → IdSequence → IdSequence
set_max max s = record s { max = if max == 0 then none else some max }

-- `self.max == Some(id)`.
abbrev is_max : Option ℕ → ℕ → Bool
is_max none id = false
is_max (some max) id = max == id

module _ (size : ℕ) where
  -- The id to hand out: 0 is skipped where it is not allowed.
  skip_zero : IdSequence → ℕ
  skip_zero s = if not s.allow_zero && s.id == 0 then (s.id + 1) % size else s.id

  unfoldable pub next : IdSequence → ℕ × IdSequence
  unfolding skip_zero
  next s =
      let id = skip_zero s in (id, record s { id = if is_max s.max id then 0 else (id + 1) % size })

  -- The sequence after `k` calls of `next`.
  unfoldable pub advance : ℕ → IdSequence → IdSequence
  advance zero s = s
  advance (suc k) s = (next (advance k s)).1
