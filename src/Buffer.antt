-- ===== src/Buffer.antt =====
-- src/buffer.rs: the circular buffer between the socket and the frames. Bytes are only moved, so a
-- byte is any number. `usize` arithmetic does not overflow here: every sum is below twice the
-- capacity. Where `available_data` is lowered, it is at least as large, so truncated `-` is exact
-- under the invariant.
pub mod Inv
pub mod Bytes
pub mod Fifo
pub mod Stored
pub mod Run
pub mod Reserved
pub mod Grown
use lapin.Base.{
  ℕ, zero, suc, ◌+◌, ◌-◌, ◌%◌, min, Bool, true, false, ◌&&◌, Option, none, some, List, [], ◌∷◌,
  ◌++◌, ltb, leb, ◌==◌, take, drop, length, if◌then◌else◌,
}

pub record Buffer : Type 0 where
  pub memory : List ℕ
  pub capacity : ℕ
  pub position : ℕ
  pub end : ℕ
  pub available_data : ℕ

pub record Checkpoint : Type 0 where
  pub end : ℕ
  pub backwards : Bool

unfoldable pub zeros : ℕ → List ℕ
zeros zero = []
zeros (suc n) = 0 ∷ zeros n

unfoldable pub with_capacity : ℕ → Buffer
unfolding zeros
with_capacity capacity = record {
  memory = zeros capacity;
  capacity = capacity;
  position = 0;
  end = 0;
  available_data = 0;
}

unfoldable pub reset : Buffer → Buffer
reset b = record b { position = 0; end = 0; available_data = 0 }

unfoldable pub checkpoint : Buffer → Checkpoint
checkpoint b = record { end = b.end; backwards = true }

-- What `rollback` makes of `available_data`.
rolled_back : Bool → ℕ → ℕ → ℕ → ℕ → ℕ
rolled_back true from to capacity available =
    if ltb to from then available - (from - to) else available - (from + (capacity - to))
rolled_back false from to capacity available =
    if ltb to from then available + ((capacity - from) + to) else available + (to - from)

unfoldable pub rollback : Checkpoint → Buffer → Buffer
unfolding rolled_back
rollback c b = if c.end == b.end then b else record b {
  end = c.end;
  available_data = rolled_back c.backwards b.end c.end b.capacity b.available_data;
}

unfoldable pub available_space : Buffer → ℕ
available_space b = b.capacity - b.available_data

-- `%=` by a capacity of 0 panics: `none`.
unfoldable pub consume : ℕ → Buffer → Option (Buffer × ℕ)
consume count b =
    let cnt = min count b.available_data in
    if b.capacity == 0
    then none
    else some (
      record b {
        position = (b.position + cnt) % b.capacity;
        available_data = b.available_data - cnt;
      },
      cnt,
    )

unfoldable pub fill : ℕ → Buffer → Option (Buffer × ℕ)
unfolding available_space
fill count b =
    let cnt = min count (available_space b) in
    if b.capacity == 0
    then none
    else some (
      record b { end = (b.end + cnt) % b.capacity; available_data = b.available_data + cnt },
      cnt,
    )

-- `copy_from_slice` of memory below `n` into the new end of `growth` bytes: it panics, `none`,
-- unless the two are of the same length.
unfoldable pub copy_into_growth : ℕ → ℕ → List ℕ → Option (List ℕ)
copy_into_growth n growth old = if n == growth then some (old ++ take n old) else none

-- `copy_within(growth..end, 0)`: the bytes from `growth` up to `end` move to the front.
unfoldable pub copy_to_front : ℕ → ℕ → List ℕ → List ℕ
copy_to_front growth end memory =
    take (end - growth) (drop growth memory) ++ drop (end - growth) memory

unfoldable pub moved : ℕ → ℕ → Buffer → Option Buffer
unfolding copy_into_growth copy_to_front
moved growth new_size b =
    if ltb b.end growth
    then elim (copy_into_growth b.end growth b.memory) [
      | none ↦ none
      | some memory ↦
          some (record b { memory = memory; capacity = new_size; end = b.end + b.capacity })
    ]
    else elim (copy_into_growth growth growth b.memory) [
      | none ↦ none
      | some memory ↦ some (record b {
        memory = copy_to_front growth b.end memory;
        capacity = new_size;
        end = b.end - growth;
      })
    ]

-- `grow`, with whether the buffer has grown; `none` is a panic.
unfoldable pub grow : ℕ → Buffer → Option (Buffer × Bool)
unfolding moved zeros
grow new_size b =
    let growth = new_size - b.capacity in
    let tail_in_front = leb b.end b.position && ltb 0 b.available_data in
    if leb new_size b.capacity
    then some (b, false)
    else if tail_in_front
    then elim (moved growth new_size b) [ none ↦ none | some b' ↦ some (b', true) ]
    else some (record b { memory = b.memory ++ zeros growth; capacity = new_size }, true)

-- `poll_write_to` and `parsing_context`: the slices of the memory that hold the data.
unfoldable pub slices : Buffer → List ℕ × List ℕ
slices b =
    if b.available_data == 0
    then ([], [])
    else if ltb b.position b.end
    then (take (b.end - b.position) (drop b.position b.memory), [])
    else (drop b.position b.memory, take b.end b.memory)

-- The bytes of the two slices, in order.
unfoldable pub contents : Buffer → List ℕ
unfolding slices
contents b = let held = slices b in held.0 ++ held.1
