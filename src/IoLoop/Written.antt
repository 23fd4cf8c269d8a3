-- ===== src/IoLoop/Written.antt =====
-- Which promises are resolved by what the socket takes, however it takes it.
use native.Mathlib.Nat.{mod-eq_of_lt}
use lapin.Base.{
  ℕ, zero, suc, ◌+◌, ◌-◌, ◌≤◌, ◌<◌, ◌≡◌, refl, inl, inr, Bool-cases, List, [], ◌∷◌, ◌++◌, ltb, leb,
  All, arith, append_assoc, sym, if◌then◌else◌,
}
use lapin.Frame.{Effect, resolve}
use lapin.Receiver.Content.{sum}
use lapin.IoLoop.{Serialized, account, account_write, frame_size_size}

-- The bytes that are left to write.
abbrev pub left : List Serialized → ℕ
left [] = 0
left (f ∷ fs) = f.0 + left fs

-- The promises of the frames that are whole within the first bytes.
abbrev pub whole : {E : Type 0} → ℕ → List Serialized → List (Effect E)
whole n [] = []
whole n (f ∷ fs) = if leb f.0 n then resolve f.1 ++ whole (n - f.0) fs else []

-- One `account_write` for each size that the socket takes.
unfoldable pub account_writes :
    {E : Type 0} → List ℕ → List Serialized → List Serialized × List (Effect E)
account_writes [] fs = (fs, [])
account_writes (n ∷ ns) fs =
    let (rest, effects, unexpected) = account_write n fs in
    let (last, more) = account_writes ns rest in (last, effects ++ more)

abbrev pub Positive : List Serialized → Type 0
Positive = All (λ f. 0 < f.0)

module _ {E : Type 0} where
  account_lem :
      (n : ℕ) (fs : List Serialized)
      → Positive fs
      → n ≤ left fs
      → (left (account {E = E} n fs).0 + n ≡ left fs)
        × Positive (account {E = E} n fs).0
        × ((account {E = E} n fs).1 ≡ whole n fs)
        × ((account {E = E} n fs).2 ≡ 0)
  unfolding account
  account_lem n [] p h = (ground arith, tt, refl, ground arith)
  account_lem zero (f ∷ fs) p h = (ground arith, p, ground arith, refl)
  account_lem (suc n) (f ∷ fs) p h = elim (Bool-cases (ltb (suc n) f.0)) [
    | inl e ↦ (ground (arith, e), ground (arith, e, p), ground (arith, e), ground (arith, e))
    | inr e ↦
        let (l, q, w, u) = account_lem (suc n - f.0) fs p.1 (ground arith) in
        (ground (arith, e, l), ground (arith, e, q), ground (arith, e, w), ground (arith, e, u))
  ]

  whole_none : (fs : List Serialized) → Positive fs → whole {E = E} 0 fs ≡ []
  whole_none [] p = refl
  whole_none (f ∷ fs) p = ground (arith, p.0)

  -- What is whole within `a + b` bytes is whole within `a`, or within `b` of what is then left.
  whole_split :
      (a b : ℕ) (fs : List Serialized)
      → Positive fs
      → whole {E = E} (a + b) fs ≡ whole a fs ++ whole b (account {E = E} a fs).0
  unfolding account
  whole_split a b [] p = refl
  whole_split zero b (f ∷ fs) p = ground arith
  whole_split (suc a) b (f ∷ fs) p = elim (Bool-cases (ltb (suc a) f.0)) [
    | inl e ↦ ground (arith, e)
    | inr e ↦ ground (
      arith,
      e,
      whole_split (suc a - f.0) b fs p.1,
      append_assoc (resolve {E = E} f.1) (whole (suc a - f.0) fs)
          (whole b (account {E = E} (suc a - f.0) fs).0),
    )
  ]

  -- However the socket cuts up the bytes that it takes, of frames that are not empty and that have
  -- as many left, in writes below 2^32 bytes: the promises resolved are those of the frames that are
  -- whole within the bytes taken, in order, and what is left is the rest.
  pub account_writes-whole :
      (ns : List ℕ) (fs : List Serialized)
      → Positive fs
      → All (λ n. n < frame_size_size) ns
      → sum ns ≤ left fs
      → ((account_writes {E = E} ns fs).1 ≡ whole (sum ns) fs)
        × (left (account_writes {E = E} ns fs).0 + sum ns ≡ left fs)
  unfolding account_writes account_write
  account_writes-whole [] fs p s h = (sym (whole_none fs p), ground arith)
  account_writes-whole (n ∷ ns) fs p s h =
      let (l, q, w, u) = account_lem n fs p (ground arith) in
      let (rest, r) = account_writes-whole ns (account {E = E} n fs).0 q s.1 (ground (arith, l)) in
      (
        ground (arith, mod-eq_of_lt s.0, w, rest, whole_split n (sum ns) fs p),
        ground (arith, mod-eq_of_lt s.0, l, r),
      )
