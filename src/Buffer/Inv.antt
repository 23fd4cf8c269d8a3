-- ===== src/Buffer/Inv.antt =====
-- The invariant of the buffer's indices, which every operation keeps.
use native.Mathlib.Nat.{mod-lt, mod-eq_of_lt, mod-eq-sub-mod}
use lapin.Base.{
  ℕ, ◌+◌, ◌-◌, ◌%◌, ◌≤◌, ◌<◌, ◌≡◌, refl, ◌↔◌, inl, inr, min, none, some, arith, ltb, length,
  Bool-cases, if◌then◌else◌,
}
use lapin.Buffer.{Buffer, checkpoint, rollback, consume, fill, grow}

-- The end is the position moved on by the data, round the memory.
abbrev pub wrap : ℕ → ℕ → ℕ
wrap capacity n = if ltb n capacity then n else n - capacity

pub record IsValid (b : Buffer) : Type 0 where
  pub memory_size : length b.memory ≡ b.capacity
  pub positive : 0 < b.capacity
  pub inside : b.position < b.capacity
  pub fits : b.available_data ≤ b.capacity
  pub reaches : b.end ≡ wrap b.capacity (b.position + b.available_data)

pub mod_wrap : (n capacity : ℕ) → n < capacity + capacity → n % capacity ≡ wrap capacity n
mod_wrap n capacity h = elim (Bool-cases (ltb n capacity)) [
  | inl e ↦ ground (arith, mod-eq_of_lt {n = n} {m = capacity} (ground arith))
  | inr e ↦ ground (
    arith,
    mod-eq-sub-mod {n = n} {m = capacity} (ground arith),
    mod-eq_of_lt {n = n - capacity} {m = capacity} (ground arith),
  )
]

-- The end moves on by what is filled, the position by what is consumed.
pub end_filled :
    (capacity position held n : ℕ)
    → position < capacity
    → held + n ≤ capacity
    → (wrap capacity (position + held) + n) % capacity ≡ wrap capacity (position + (held + n))
end_filled capacity position held n i f =
    ground (arith, mod_wrap (wrap capacity (position + held) + n) capacity (ground arith))

end_consumed :
    (capacity position held n : ℕ)
    → position < capacity
    → n ≤ held
    → held ≤ capacity
    → wrap capacity (position + held) ≡ wrap capacity ((position + n) % capacity + (held - n))
end_consumed capacity position held n i f g =
    ground (arith, mod_wrap (position + n) capacity (ground arith))

-- `fill` does not panic on a valid buffer; it adds as many bytes as asked for, or as there is room
-- for, and leaves the buffer valid.
pub fill-IsValid :
    (count : ℕ) (b : Buffer)
    → IsValid b
    → (b' : Buffer) × (fill count b ≡ some (b', min count (b.capacity - b.available_data)))
      × IsValid b'
      × (b'.available_data ≡ b.available_data + min count (b.capacity - b.available_data))
unfolding fill
fill-IsValid count b v =
    let n = min count (b.capacity - b.available_data) in
    (
      record b { end = (b.end + n) % b.capacity; available_data = b.available_data + n },
      ground (arith, v.positive),
      record {
        memory_size = v.memory_size;
        positive = v.positive;
        inside = v.inside;
        fits = ground (arith, v.fits);
        reaches = ground (
          arith,
          v.reaches,
          end_filled b.capacity b.position b.available_data n v.inside (ground (arith, v.fits)),
        );
      },
      refl,
    )

-- The buffer without its first `n` bytes.
abbrev pub drained : ℕ → Buffer → Buffer
drained n b = record b {
  position = (b.position + n) % b.capacity;
  available_data = b.available_data - n;
}

pub drained-IsValid :
    (n : ℕ) (b : Buffer) → IsValid b → n ≤ b.available_data → IsValid (drained n b)
drained-IsValid n b v h = record {
  memory_size = v.memory_size;
  positive = v.positive;
  inside = mod-lt (b.position + n) v.positive;
  fits = ground (arith, v.fits);
  reaches =
      ground
        (arith, v.reaches, end_consumed b.capacity b.position b.available_data n v.inside h v.fits);
}

-- `consume` does not panic on a valid buffer; it takes as many bytes as asked for, or as there are,
-- and leaves the buffer valid.
pub consume-IsValid :
    (count : ℕ) (b : Buffer)
    → IsValid b
    → (b' : Buffer) × (consume count b ≡ some (b', min count b.available_data))
      × IsValid b'
      × (b'.available_data ≡ b.available_data - min count b.available_data)
unfolding consume
consume-IsValid count b v =
    let n = min count b.available_data in
    (drained n b, ground (arith, v.positive), drained-IsValid n b v (ground arith), refl)

-- On a valid buffer, the rollback of a fill to the checkpoint before it gives the buffer of before,
-- where less than the capacity was filled.
pub rollback-fill :
    (count : ℕ) (b b' : Buffer) (filled : ℕ)
    → IsValid b
    → fill count b ≡ some (b', filled)
    → filled < b.capacity
    → rollback (checkpoint b) b' ≡ b
unfolding fill rollback checkpoint
rollback-fill count b b' filled v e h =
    let n = min count (b.capacity - b.available_data) in
    ground (
      arith,
      v.reaches,
      v.fits,
      v.inside,
      v.positive,
      end_filled b.capacity b.position b.available_data n v.inside (ground (arith, v.fits)),
    )

-- `grow` panics exactly when the data wraps round and the part in front is shorter than the growth.
pub grow-panics :
    (new_size : ℕ) (b : Buffer)
    → (grow new_size b ≡ none) ↔ (
        (b.capacity < new_size)
        × (b.end ≤ b.position)
        × (0 < b.available_data)
        × (b.end < new_size - b.capacity))
unfolding grow
grow-panics new_size b =
    (λ h. (ground arith, ground arith, ground arith, ground arith), λ (c, e, d, l). ground arith)
