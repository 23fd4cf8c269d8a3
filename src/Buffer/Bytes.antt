-- ===== src/Buffer/Bytes.antt =====
-- src/buffer.rs: the bytes that go into the buffer and come out of it, by `write` and by the polls
-- of the socket. A reader or a writer is the bytes that it gives or takes: a vectored read fills
-- the slices in order, which is what the library's documentation promises.
use lapin.Base.{
  ℕ, ◌+◌, ◌-◌, min, Option, none, some, false, List, ◌++◌, length, take, drop, leb, ltb, ◌==◌,
  if◌then◌else◌,
}
use lapin.Buffer.{Buffer, Checkpoint, available_space, fill, checkpoint, rollback}

-- A slice of the memory from `at` on takes the bytes.
unfoldable pub overwrite : ℕ → List ℕ → List ℕ → List ℕ
overwrite at bytes memory = take at memory ++ (bytes ++ drop (at + length bytes) memory)

-- The bytes are in the memory; `write` counts them as data.
unfoldable pub filled : ℕ → Buffer → Option (Buffer × ℕ)
unfolding fill
filled amt b = elim (fill amt b) [ none ↦ none | some r ↦ some (r.0, amt) ]

-- `io::Write::write`: with the number of bytes written; `none` is a panic.
unfoldable pub write : List ℕ → Buffer → Option (Buffer × ℕ)
unfolding available_space overwrite filled
write bytes b =
    let first = min (length bytes) (length b.memory - b.end) in
    let tail = overwrite b.end (take first bytes) b.memory in
    let more = min (length bytes - first) b.position in
    let between = min (length bytes) (b.position - b.end) in
    if available_space b == 0
    then filled 0 b
    else if leb b.position b.end
    then (if first == b.capacity - b.end
        then filled (first + more)
            (record b { memory = overwrite 0 (take more (drop first bytes)) tail })
        else filled first (record b { memory = tail }))
    else filled between (record b { memory = overwrite b.end (take between bytes) b.memory })

-- `poll_read_from`, ready: the reader gives as many of its bytes as the slices hold. The caller
-- counts them by `fill`.
unfoldable pub poll_read_from : List ℕ → Buffer → Buffer × ℕ
unfolding available_space overwrite
poll_read_from given b =
    let first = min (length given) (length b.memory - b.end) in
    let more = min (length given - first) b.position in
    let between = min (length given) (b.position - b.end) in
    if available_space b == 0
    then (b, 0)
    else if leb b.position b.end
    then (
      record b {
        memory =
            overwrite 0 (take more (drop first given))
              (overwrite b.end (take first given) b.memory);
      },
      first + more,
    )
    else (record b { memory = overwrite b.end (take between given) b.memory }, between)

-- `reserve_write_use`: `generator` writes after a gap of `reserved` bytes, `before` writes into the
-- gap. Either returns the buffer, or fails with `none`.
unfoldable pub reserve_write_use :
    {T : Type 0}
    → ℕ
    → (Buffer → Option (Buffer × T))
    → (Buffer → T → Option Buffer)
    → Buffer
    → Option Buffer
unfolding available_space fill checkpoint rollback
reserve_write_use reserved generator before b =
    if ltb (available_space b) reserved then none else elim (fill reserved b) [
      | none ↦ none
      | some r ↦ elim (generator r.0) [
        | none ↦ none
        | some made ↦
            let end : Checkpoint = record (checkpoint made.0) { backwards = false } in
            elim (before (rollback (checkpoint b) made.0) made.1) [
              | none ↦ none
              | some b' ↦ some (rollback end b')
            ]
      ]
    ]
