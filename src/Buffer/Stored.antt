-- ===== src/Buffer/Stored.antt =====
-- src/buffer.rs: `write` and the reads from the socket append to the bytes of the buffer.
use lapin.Base.{
  ℕ, ◌+◌, ◌-◌, ◌<◌, ◌≡◌, inl, inr, min, true, false, some, arith, ltb, leb, length, List, ◌++◌,
  take, drop, Bool-cases, if◌then◌else◌, ◌==◌, get_elem?, get_elem?-take, get_elem?-drop,
  length-take, length-drop,
}
use lapin.Buffer.{Buffer, fill, contents, available_space}
use lapin.Buffer.Bytes.{overwrite, write, filled, poll_read_from}
use lapin.Buffer.Inv.{IsValid}
use lapin.Buffer.Fifo.{
  placed, refilled, refilled-IsValid, contents-refilled, get_elem?-overwrite, length-overwrite,
}

-- The memory behind the end, then that before the position.
abbrev in_two : Buffer → List ℕ → List ℕ
in_two b bytes =
    let first = min (length bytes) (length b.memory - b.end) in
    overwrite 0 (take (min (length bytes - first) b.position) (drop first bytes))
      (overwrite b.end (take first bytes) b.memory)

abbrev in_one : Buffer → List ℕ → List ℕ
in_one b bytes = overwrite b.end (take (min (length bytes) (b.position - b.end)) bytes) b.memory

abbrev stored : Buffer → List ℕ → List ℕ
stored b bytes = if leb b.position b.end then in_two b bytes else in_one b bytes

-- As many bytes as there are, or as there is room for.
abbrev pub room : List ℕ → Buffer → ℕ
room bytes b = min (length bytes) (b.capacity - b.available_data)

length-in_two :
    (b : Buffer) (bytes : List ℕ)
    → IsValid b
    → leb b.position b.end ≡ true
    → length (in_two b bytes) ≡ length b.memory
length-in_two b bytes v e =
    let first = min (length bytes) (length b.memory - b.end) in
    let more = min (length bytes - first) b.position in
    ground (
      arith,
      v.reaches,
      v.fits,
      v.inside,
      v.memory_size,
      length-take first bytes,
      length-drop first bytes,
      length-take more (drop first bytes),
      length-overwrite b.end (take first bytes) b.memory,
      length-overwrite 0 (take more (drop first bytes))
          (overwrite b.end (take first bytes) b.memory),
    )

length-in_one :
    (b : Buffer) (bytes : List ℕ)
    → IsValid b
    → leb b.position b.end ≡ false
    → length (in_one b bytes) ≡ length b.memory
length-in_one b bytes v e =
    let between = min (length bytes) (b.position - b.end) in
    ground (
      arith,
      v.inside,
      v.memory_size,
      length-take between bytes,
      length-overwrite b.end (take between bytes) b.memory,
    )

get_elem?-in_two :
    (b : Buffer) (bytes : List ℕ) (i : ℕ)
    → IsValid b
    → leb b.position b.end ≡ true
    → get_elem? (in_two b bytes) i ≡ (
        let first = min (length bytes) (b.capacity - b.end) in
        let more = min (length bytes - first) b.position in
        if ltb i more
        then get_elem? bytes (first + i)
        else if ltb i b.end
        then get_elem? b.memory i
        else if ltb i (b.end + first)
        then get_elem? bytes (i - b.end)
        else get_elem? b.memory i)
get_elem?-in_two b bytes i v e =
    let first = min (length bytes) (length b.memory - b.end) in
    let more = min (length bytes - first) b.position in
    ground (
      arith,
      v.reaches,
      v.fits,
      v.inside,
      v.memory_size,
      length-take first bytes,
      length-take more (drop first bytes),
      length-drop first bytes,
      get_elem?-overwrite 0 (take more (drop first bytes))
          (overwrite b.end (take first bytes) b.memory) i,
      get_elem?-overwrite b.end (take first bytes) b.memory i,
      get_elem?-take first bytes (i - b.end),
      get_elem?-take more (drop first bytes) i,
      get_elem?-drop first bytes i,
    )

in_two-placed :
    (b : Buffer) (bytes : List ℕ) (i : ℕ)
    → IsValid b
    → leb b.position b.end ≡ true
    → 0 < b.capacity - b.available_data
    → i < b.capacity
    → get_elem? (in_two b bytes) i ≡ placed b (room bytes b) bytes i
in_two-placed b bytes i v e s h =
    ground (arith, v.reaches, v.fits, v.inside, get_elem?-in_two b bytes i v e)

in_one-placed :
    (b : Buffer) (bytes : List ℕ) (i : ℕ)
    → IsValid b
    → leb b.position b.end ≡ false
    → i < b.capacity
    → get_elem? (in_one b bytes) i ≡ placed b (room bytes b) bytes i
in_one-placed b bytes i v e h =
    let between = min (length bytes) (b.position - b.end) in
    ground (
      arith,
      v.reaches,
      v.fits,
      v.inside,
      v.memory_size,
      length-take between bytes,
      get_elem?-overwrite b.end (take between bytes) b.memory i,
      get_elem?-take between bytes (i - b.end),
    )

length-stored :
    (b : Buffer) (bytes : List ℕ) → IsValid b → length (stored b bytes) ≡ length b.memory
length-stored b bytes v = elim (Bool-cases (leb b.position b.end)) [
  | inl e ↦ ground (arith, length-in_two b bytes v e)
  | inr e ↦ ground (arith, length-in_one b bytes v e)
]

pub stored-placed :
    (b : Buffer) (bytes : List ℕ) (i : ℕ)
    → IsValid b
    → 0 < b.capacity - b.available_data
    → i < b.capacity
    → get_elem? (stored b bytes) i ≡ placed b (room bytes b) bytes i
stored-placed b bytes i v s h = elim (Bool-cases (leb b.position b.end)) [
  | inl e ↦ ground (arith, in_two-placed b bytes i v e s h)
  | inr e ↦ ground (arith, in_one-placed b bytes i v e h)
]

-- Where there is no room, the memory stays.
abbrev pub taken_in : List ℕ → Buffer → List ℕ
taken_in bytes b = if available_space b == 0 then b.memory else stored b bytes

pub length-taken_in :
    (bytes : List ℕ) (b : Buffer) → IsValid b → length (taken_in bytes b) ≡ length b.memory
length-taken_in bytes b v = ground (arith, length-stored b bytes v)

pub taken_in-IsValid :
    (bytes : List ℕ) (b : Buffer)
    → IsValid b
    → IsValid (refilled (taken_in bytes b) (room bytes b) b)
taken_in-IsValid bytes b v =
    refilled-IsValid b (taken_in bytes b) (room bytes b) v (ground arith)
      (length-taken_in bytes b v)

pub contents-taken_in :
    (bytes : List ℕ) (b : Buffer)
    → IsValid b
    → contents (refilled (taken_in bytes b) (room bytes b) b)
      ≡ contents b ++ take (room bytes b) bytes
unfolding available_space
contents-taken_in bytes b v =
    contents-refilled b (taken_in bytes b) bytes (room bytes b) v (ground arith) (ground arith)
      (length-taken_in bytes b v) (λ i h. ground (arith, stored-placed b bytes i v))

pub write_lem :
    (bytes : List ℕ) (b : Buffer)
    → IsValid b
    → write bytes b ≡ some (refilled (taken_in bytes b) (room bytes b) b, room bytes b)
unfolding write filled fill available_space overwrite
write_lem bytes b v = ground (arith, v.reaches, v.fits, v.inside, v.positive, v.memory_size)

pub poll_read_from_lem :
    (given : List ℕ) (b : Buffer)
    → IsValid b
    → poll_read_from given b ≡ (record b { memory = taken_in given b }, room given b)
unfolding poll_read_from available_space
poll_read_from_lem given b v =
    ground (arith, v.reaches, v.fits, v.inside, v.positive, v.memory_size)

pub taken_in-placed :
    (bytes : List ℕ) (b : Buffer) (i : ℕ)
    → IsValid b
    → i < b.capacity
    → get_elem? (taken_in bytes b) i ≡ placed b (room bytes b) bytes i
unfolding available_space
taken_in-placed bytes b i v h = ground (arith, stored-placed b bytes i v)
