-- ===== src/Buffer/Reserved.antt =====
-- src/buffer.rs: `reserve_write_use`, by which a size is written in front of what it measures.
use lapin.Base.{
  ℕ, ◌+◌, ◌-◌, ◌%◌, ◌≤◌, ◌<◌, ◌≡◌, refl, false, Option, none, some, arith, ltb, leb, length, List,
  ◌++◌, if◌then◌else◌, get_elem?, get_elem?_ext, get_elem?_past, get_elem?-append, length-append,
  Bool-cases, inl, inr,
}
use lapin.Buffer.{Buffer, contents, fill, rollback, checkpoint, available_space}
use lapin.Buffer.Bytes.{write, reserve_write_use}
use lapin.Buffer.Inv.{IsValid, wrap, end_filled}
use lapin.Buffer.Fifo.{get_elem?-contents, length-contents, refilled, refilled-IsValid}
use lapin.Buffer.Stored.{write_lem, room, taken_in, length-taken_in, taken_in-placed}

-- A generator and what is written before it, given by the bytes that they write.
abbrev pub generate : List ℕ → Buffer → Option (Buffer × ℕ)
generate bytes b = write bytes b

abbrev pub write_before : List ℕ → Buffer → ℕ → Option Buffer
write_before bytes b size = elim (write bytes b) [ none ↦ none | some r ↦ some r.0 ]

rollback-refilled :
    (b : Buffer) (memory : List ℕ) (n : ℕ)
    → IsValid b
    → b.available_data + n ≤ b.capacity
    → n < b.capacity
    → rollback (checkpoint b) (refilled memory n b) ≡ record b { memory = memory }
unfolding rollback checkpoint
rollback-refilled b memory n v f s =
    ground
      (arith, v.reaches, v.inside, end_filled b.capacity b.position b.available_data n v.inside f)

-- The rollback of a rollback counts the bytes again.
rollback_forward :
    (b : Buffer) (n : ℕ)
    → IsValid b
    → b.available_data + n ≤ b.capacity
    → n < b.capacity
    → rollback (record { end = (b.end + n) % b.capacity; backwards = false }) b
      ≡ refilled b.memory n b
unfolding rollback
rollback_forward b n v f s =
    ground
      (arith, v.reaches, v.inside, end_filled b.capacity b.position b.available_data n v.inside f)

refilled_twice :
    (b : Buffer) (memory other : List ℕ) (n m : ℕ)
    → IsValid b
    → b.available_data + (n + m) ≤ b.capacity
    → refilled memory m (refilled other n b) ≡ refilled memory (n + m) b
refilled_twice b memory other n m v f = ground (
  arith,
  v.reaches,
  end_filled b.capacity b.position b.available_data (n + m) v.inside f,
  end_filled b.capacity b.position b.available_data n v.inside (ground arith),
  end_filled b.capacity b.position (b.available_data + n) m v.inside (ground arith),
)

distance : ℕ → ℕ → ℕ → ℕ
distance capacity from to = if leb from to then to - from else (capacity + to) - from

distance_wrapped :
    (capacity position held i : ℕ)
    → position < capacity
    → held ≤ capacity
    → i < capacity
    → distance capacity (wrap capacity (position + held)) (wrap capacity (position + i))
      ≡ (if leb held i then i - held else (capacity + i) - held)
unfolding distance
distance_wrapped capacity position held i p h q = ground arith

-- What stands at a distance from the end, where `front` is over a gap before `behind`.
over_and_behind :
    (front behind : List ℕ) (capacity held i d : ℕ) (old between new : Option ℕ)
    → held + (length front + length behind) ≤ capacity
    → i < held + (length front + length behind)
    → d ≡ (if leb held i then i - held else (capacity + i) - held)
    → (length front ≤ d
        → between ≡ (
            if ltb d (length front + length behind)
            then get_elem? behind (d - length front)
            else old))
    → new ≡ (if ltb d (length front) then get_elem? front d else between)
    → new ≡ (if ltb i held then old else get_elem? (front ++ behind) (i - held))
over_and_behind front behind capacity held i d old between new fits h e f g =
    elim (Bool-cases (leb (length front) d)) [
      | inl far ↦ ground (arith, f (ground arith), get_elem?-append front behind (i - held))
      | inr near ↦ ground (arith, get_elem?-append front behind (i - held))
    ]

module _ (front behind : List ℕ) (b : Buffer) (v : IsValid b)
    (fits : b.available_data + (length front + length behind) ≤ b.capacity)
    (short : length front + length behind < b.capacity) where
  abbrev gap : Buffer
  gap = refilled b.memory (length front) b

  gap-IsValid : IsValid gap
  gap-IsValid = refilled-IsValid b b.memory (length front) v (ground arith) refl

  abbrev made : Buffer
  made = refilled (taken_in behind gap) (room behind gap) gap

  abbrev back : Buffer
  back = record b { memory = taken_in behind gap }

  back-IsValid : IsValid back
  back-IsValid = record {
    memory_size = ground (arith, v.memory_size, length-taken_in behind gap gap-IsValid);
    positive = v.positive;
    inside = v.inside;
    fits = v.fits;
    reaches = v.reaches;
  }

  abbrev done : Buffer
  done = record made { memory = taken_in front back }

  made-refilled : made ≡ refilled (taken_in behind gap) (length front + length behind) b
  made-refilled =
      ground (
        arith,
        refilled_twice b (taken_in behind gap) b.memory (length front) (length behind) v fits,
      )

  rollback-made : rollback (checkpoint b) made ≡ back
  rollback-made = ground (
    arith,
    made-refilled,
    rollback-refilled b (taken_in behind gap) (length front + length behind) v (ground arith)
        (ground arith),
  )

  abbrev written : Buffer
  written = refilled (taken_in front back) (length front) back

  rollback-done : rollback (record { end = made.end; backwards = false }) written ≡ done
  rollback-done = ground (
    arith,
    rollback_forward written (length behind)
        (refilled-IsValid back (taken_in front back) (length front) back-IsValid (ground arith)
          (length-taken_in front back back-IsValid))
        (ground arith) (ground arith),
  )

  abbrev ended : Buffer
  ended = refilled (taken_in front back) (length front + length behind) b

  ended-IsValid : IsValid ended
  ended-IsValid =
      refilled-IsValid b (taken_in front back) (length front + length behind) v (ground arith) (
        ground
          (arith, length-taken_in front back back-IsValid, length-taken_in behind gap gap-IsValid))

  done-ended : done ≡ ended
  done-ended = ground (arith, made-refilled)

  written-IsValid : IsValid written
  written-IsValid =
      refilled-IsValid back (taken_in front back) (length front) back-IsValid (ground arith)
        (length-taken_in front back back-IsValid)

  memory_behind :
      (k : ℕ)
      → k < b.capacity
      → length front ≤ distance b.capacity b.end k
      → get_elem? (taken_in behind gap) k ≡ (
          if ltb (distance b.capacity b.end k) (length front + length behind)
          then get_elem? behind (distance b.capacity b.end k - length front)
          else get_elem? b.memory k)
  unfolding distance
  memory_behind k h l = ground (
    arith,
    v.reaches,
    v.inside,
    end_filled b.capacity b.position b.available_data (length front) v.inside (ground arith),
    taken_in-placed behind gap k gap-IsValid h,
  )

  -- The bytes in front are written over the gap, those behind it stay.
  memory_at :
      (k : ℕ)
      → k < b.capacity
      → get_elem? (taken_in front back) k ≡ (
          if ltb (distance b.capacity b.end k) (length front)
          then get_elem? front (distance b.capacity b.end k)
          else get_elem? (taken_in behind gap) k)
  unfolding distance
  memory_at k h = ground (arith, taken_in-placed front back k back-IsValid h)

  from_end :
      (i : ℕ)
      → i < b.capacity
      → distance b.capacity b.end (wrap b.capacity (b.position + i)) ≡ (
          if leb b.available_data i
          then i - b.available_data
          else (b.capacity + i) - b.available_data)
  from_end i h =
      rw v.reaches (distance_wrapped b.capacity b.position b.available_data i v.inside v.fits h)

  memory_of :
      (i k : ℕ)
      → k < b.capacity
      → i < b.available_data + (length front + length behind)
      → distance b.capacity b.end k ≡ (
          if leb b.available_data i
          then i - b.available_data
          else (b.capacity + i) - b.available_data)
      → get_elem? (taken_in front back) k ≡ (
          if ltb i b.available_data
          then get_elem? b.memory k
          else get_elem? (front ++ behind) (i - b.available_data))
  memory_of i k h q d =
      over_and_behind front behind b.capacity b.available_data i (distance b.capacity b.end k)
        (get_elem? b.memory k) (get_elem? (taken_in behind gap) k)
        (get_elem? (taken_in front back) k) fits q d (memory_behind k h) (memory_at k h)

  get_elem?-ended :
      (i : ℕ) → get_elem? (contents ended) i ≡ get_elem? (contents b ++ (front ++ behind)) i
  get_elem?-ended i =
      elim (Bool-cases (ltb i (b.available_data + (length front + length behind)))) [
        | inr out ↦ ground (
          arith,
          get_elem?-contents ended i ended-IsValid,
          length-contents b v,
          length-append front behind,
          length-append (contents b) (front ++ behind),
          get_elem?_past (contents b ++ (front ++ behind)) i,
        )
        | inl inside ↦ ground (
          arith,
          get_elem?-contents ended i ended-IsValid,
          memory_of i (wrap b.capacity (b.position + i)) (ground (arith, v.inside)) (ground arith)
              (from_end i (ground arith)),
          get_elem?-contents b i v,
          length-contents b v,
          get_elem?-append (contents b) (front ++ behind) i,
        )
      ]

  enough : ltb (available_space b) (length front) ≡ false
  unfolding available_space
  enough = ground arith

  fill-gap : fill (length front) b ≡ some (gap, length front)
  unfolding fill
  fill-gap = ground (arith, v.positive)

  write_front : write front back ≡ some (written, length front)
  write_front = ground (arith, write_lem front back back-IsValid)

  run_lem : reserve_write_use (length front) (generate behind) (write_before front) b ≡ some ended
  unfolding reserve_write_use checkpoint
  run_lem =
      rw
        (
          enough,
          fill-gap,
          write_lem behind gap gap-IsValid,
          rollback-made,
          write_front,
          rollback-done,
          done-ended,
        )
        refl

-- `reserve_write_use`, with a generator that writes `behind` and then `front` written before it,
-- on a valid buffer with room for both, and where they are fewer than its capacity: it succeeds,
-- where `front` has the length that was reserved; the bytes are then those of before, `front` and
-- `behind`, and the buffer is valid.
pub reserve_write_use_lem :
    (front behind : List ℕ) (b : Buffer)
    → IsValid b
    → b.available_data + (length front + length behind) ≤ b.capacity
    → length front + length behind < b.capacity
    → (b' : Buffer) × (reserve_write_use (length front) (generate behind) (write_before front) b
        ≡ some b')
      × IsValid b'
      × (contents b' ≡ contents b ++ (front ++ behind))
reserve_write_use_lem front behind b v fits short = (
  ended front behind b v fits short,
  run_lem front behind b v fits short,
  ended-IsValid front behind b v fits short,
  get_elem?_ext _ _ (get_elem?-ended front behind b v fits short),
)
