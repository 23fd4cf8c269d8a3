-- ===== src/ChannelIds/Free.antt =====
-- The search for a channel id ends with a free id, or after it has seen all of them.
use native.Mathlib.Nat.{mod-eq_of_lt}
use lapin.Base.{
  ℕ, zero, suc, ◌+◌, ◌-◌, ◌≤◌, ◌<◌, ◌≡◌, refl, ◌⊎◌, inl, inr, true, false, Bool-cases, Option, none,
  some, List, ltb, leb, ◌==◌, length, arith, sym, subst, if◌then◌else◌,
}
use lapin.Frame.{ChannelId}
use lapin.Sequence.{IdSequence, set_max, next}
use lapin.Sequence.Cycle.{IsBounded}
use lapin.ChannelIds.{channel_id_size, contains, search_id, create_id}

-- The id behind an id.
abbrev after : ℕ → ℕ → ℕ
after max id = if id == max then 1 else suc id

-- A sequence that has just handed out an id.
abbrev Gave : ℕ → ℕ → IdSequence → Type 0
Gave max id s =
    (s.allow_zero ≡ false) × (s.max ≡ some max) × (s.id ≡ (if id == max then 0 else suc id))

next-Gave :
    (max id : ℕ) (s : IdSequence)
    → 1 ≤ id
    → id ≤ max
    → max < channel_id_size
    → Gave max id s
    → ((next channel_id_size s).0 ≡ after max id)
      × Gave max (after max id) (next channel_id_size s).1
unfolding next
next-Gave max id s l h b (z, m, e) = ground (
  arith,
  z,
  m,
  e,
  mod-eq_of_lt {n = s.id + 1} {m = channel_id_size},
  mod-eq_of_lt {n = 1} {m = channel_id_size},
  mod-eq_of_lt {n = 2} {m = channel_id_size},
)

-- How many ids lie from an id to the first one, round the bound.
abbrev distance : ℕ → ℕ → ℕ → ℕ
distance max first id = if ltb first id then (max - id) + first else first - id

Gave-IsBounded : (max id : ℕ) (s : IdSequence) → id ≤ max → Gave max id s → IsBounded max s
Gave-IsBounded max id s h (z, m, e) = record { no_zero = z; bound = m; below = ground arith }

-- The search from an id on, behind the first: it hands out a free id, or it has passed over every
-- id as near to the first.
search_id_lem :
    {C : Type 0} (fuel max first k id : ℕ) (channels : List (ChannelId × C)) (s : IdSequence)
    → 1 ≤ first
    → first ≤ max
    → max < channel_id_size
    → 1 ≤ k
    → k ≤ max
    → 1 ≤ id
    → id ≤ max
    → Gave max id s
    → distance max first id < fuel
    → (result : Option ChannelId) × (s' : IdSequence) × (search_id fuel first true id channels s
        ≡ some (result, s'))
      × IsBounded max s'
      × (((j : ChannelId) × (result ≡ some j) × (1 ≤ j) × (j ≤ max) × (contains j channels ≡ false))
          ⊎ ((result ≡ none)
              × ((contains k channels ≡ true)
                  ⊎ (distance max first id < distance max first k)
                  ⊎ (k ≡ first))))
unfolding search_id
search_id_lem zero max first k id channels s f g b l m i j v d = absurd (omega arith)
search_id_lem (suc fuel) max first k id channels s f g b l m i j v d =
    elim (Bool-cases (id == first)) [
      | inl e ↦ (
        none,
        s,
        ground (arith, e),
        Gave-IsBounded max id s j v,
        inr (
          refl,
          elim (Bool-cases (k == first)) [
            | inl q ↦ inr (inr (ground arith))
            | inr q ↦ inr (inl (ground arith))
          ],
        ),
      )
      | inr e ↦ elim (Bool-cases (contains id channels)) [
        | inl u ↦
            let id' = (next channel_id_size s).0 in
            let s' = (next channel_id_size s).1 in
            let (eq, gave) = next-Gave max id s i j b v in
            let (result, last, run, bounded, found) =
              search_id_lem fuel max first k id' channels s' f g b l m (ground (arith, eq))
                (ground (arith, eq)) (subst (λ x. Gave max x s') (sym eq) gave)
                (ground (arith, eq)) in
            (
              result,
              last,
              ground (arith, e, u, run),
              bounded,
              elim found [
                | inl q ↦ inl q
                | inr (q, inl c) ↦ inr (q, inl c)
                | inr (q, inr (inl c)) ↦ inr (
                  q,
                  elim (Bool-cases (k == id)) [
                    | inl x ↦ inl (ground (arith, u))
                    | inr x ↦ inr (inl (ground (arith, eq, c)))
                  ],
                )
                | inr (q, inr (inr c)) ↦ inr (q, inr (inr c))
              ],
            )
        | inr u ↦
            (some id, s, ground (arith, e, u), Gave-IsBounded max id s j v, inl (id, refl, i, j, u))
      ]
    ]

next-first :
    (max : ℕ) (s : IdSequence)
    → 0 < max
    → max < channel_id_size
    → IsBounded max s
    → (1 ≤ (next channel_id_size s).0)
      × ((next channel_id_size s).0 ≤ max)
      × Gave max (next channel_id_size s).0 (next channel_id_size s).1
unfolding next
next-first max s p b v = ground (
  arith,
  v.no_zero,
  v.bound,
  v.below,
  mod-eq_of_lt {n = s.id + 1} {m = channel_id_size},
  mod-eq_of_lt {n = 1} {m = channel_id_size},
  mod-eq_of_lt {n = 2} {m = channel_id_size},
)

-- From a sequence within a positive bound below 2^16, with fuel above the bound, the search for a
-- channel id ends, and leaves the sequence within the bound. Either it hands out an id from 1 to the
-- bound that no channel has, or it reports the limit, and then there are as many channels as the
-- bound, or each id from 1 to the bound has its channel.
pub create_id_lem :
    {C : Type 0} (fuel max k : ℕ) (channels : List (ChannelId × C)) (s : IdSequence)
    → 0 < max
    → max < channel_id_size
    → s.allow_zero ≡ false
    → s.id ≤ max
    → max < fuel
    → 1 ≤ k
    → k ≤ max
    → (result : Option ChannelId) × (s' : IdSequence) × (create_id fuel max channels s
        ≡ some (result, s'))
      × IsBounded max s'
      × (((j : ChannelId) × (result ≡ some j) × (1 ≤ j) × (j ≤ max) × (contains j channels ≡ false))
          ⊎ ((result ≡ none) × ((max ≤ length channels) ⊎ (contains k channels ≡ true))))
unfolding create_id search_id set_max
create_id_lem zero max k channels s p b z h d i j = absurd (omega arith)
create_id_lem (suc fuel) max k channels s p b z h d i j =
    let bounded = set_max max s in
    let v : IsBounded max bounded = record { no_zero = z; bound = ground arith; below = h } in
    let first = (next channel_id_size bounded).0 in
    let s1 = (next channel_id_size bounded).1 in
    let (f, g, gave1) = next-first max bounded p b v in
    let (eq, gave) = next-Gave max first s1 f g b gave1 in
    elim (Bool-cases (leb max (length channels))) [
      | inl e ↦ (none, bounded, ground (arith, e), v, inr (refl, inl (ground arith)))
      | inr e ↦ elim (Bool-cases (contains first channels)) [
        | inr u ↦ (
          some first,
          s1,
          ground (arith, e, u),
          Gave-IsBounded max first s1 g gave1,
          inl (first, refl, f, g, u),
        )
        | inl u ↦
            let id' = (next channel_id_size s1).0 in
            let s2 = (next channel_id_size s1).1 in
            let (result, last, run, kept, found) =
              search_id_lem fuel max first k id' channels s2 f g b i j (ground (arith, eq))
                (ground (arith, eq)) (subst (λ x. Gave max x s2) (sym eq) gave)
                (ground (arith, eq)) in
            (
              result,
              last,
              ground (arith, e, u, run),
              kept,
              elim found [
                | inl q ↦ inl q
                | inr (q, inl c) ↦ inr (q, inr c)
                | inr (q, inr (inl c)) ↦ absurd (ground (arith, eq, c))
                | inr (q, inr (inr c)) ↦ inr (q, inr (rw c u))
              ],
            )
      ]
    ]
