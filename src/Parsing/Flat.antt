-- ===== src/Parsing/Flat.antt =====
-- src/parsing.rs: the cuts of the view, against the cuts of its bytes.
use lapin.Base.{
  ℕ, ◌+◌, ◌-◌, ◌≤◌, ◌<◌, ◌≡◌, ◌↔◌, none, some, length, take, drop, ltb, arith, Bool-cases, inl, inr,
  append-nil, take-append, drop-append,
}
use lapin.Parsing.{
  ParsingContext, take_first, take_from, take_split, iter, input_len, slice_from, slice_to,
  from_slice, from_slices,
}

-- Each cut panics exactly where the index is past the end.
pub take_split-panics :
    (index : ℕ) (c : ParsingContext) → (take_split index c ≡ none) ↔ (input_len c < index)
unfolding take_split input_len slice_from slice_to
take_split-panics index c = (λ e. ground arith, λ h. ground arith)

-- The cut at an index within the input gives the rest and the beginning of the bytes; `take` and
-- `take_from` give the one and the other, and past the end all three panic.
pub take_split_lem :
    (index : ℕ) (c : ParsingContext)
    → index ≤ input_len c
    → (rest : ParsingContext) × (begun : ParsingContext) × (take_split index c ≡ some (rest, begun))
      × (take_from index c ≡ some rest)
      × (take_first index c ≡ some begun)
      × (iter rest ≡ drop index (iter c))
      × (iter begun ≡ take index (iter c))
unfolding take_split take_from take_first input_len iter slice_from slice_to from_slice from_slices
take_split_lem index c h =
    let a = c.first.bytes in
    let b = c.second.bytes in
    elim (Bool-cases (ltb index (length a))) [
      | inl e ↦ (
        from_slices (record { start = c.first.start + index; bytes = drop index a }) c.second,
        from_slice (record c.first { bytes = take index a }),
        ground arith,
        ground arith,
        ground arith,
        ground (arith, drop-append index a b),
        ground (arith, take-append index a b, append-nil (take index a)),
      )
      | inr e ↦ (
        from_slice (record {
          start = c.second.start + (index - length a);
          bytes = drop (index - length a) b;
        }),
        from_slices c.first (record c.second { bytes = take (index - length a) b }),
        ground arith,
        ground arith,
        ground arith,
        ground (arith, drop-append index a b, append-nil (drop (index - length a) b)),
        ground (arith, take-append index a b),
      )
    ]
