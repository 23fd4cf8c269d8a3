-- ===== src/Parsing.antt =====
-- src/parsing.rs: the view of the buffer that the parsers of the crate amq_protocol read, two
-- slices of its memory; and src/buffer.rs, the view of a buffer and how far a parser has come. A
-- slice is where it starts in the memory, for its pointer, and its bytes. A slice out of range
-- panics: `none`.
pub mod Flat
pub mod Offset
pub mod Prefix
use lapin.Base.{
  ℕ, zero, suc, ◌+◌, ◌-◌, Bool, true, false, ◌&&◌, not, Option, none, some, List, [], ◌∷◌, ◌++◌,
  length, take, drop, map, leb, ltb, ◌==◌, if◌then◌else◌, ◌>>=◌,
}
use lapin.Buffer.{Buffer}

pub record Slice : Type 0 where
  pub start : ℕ
  pub bytes : List ℕ

pub record ParsingContext : Type 0 where
  pub first : Slice
  pub second : Slice

-- `&s[..n]` and `&s[n..]`.
unfoldable pub slice_to : ℕ → Slice → Option Slice
slice_to n s = if leb n (length s.bytes) then some (record s { bytes = take n s.bytes }) else none

unfoldable pub slice_from : ℕ → Slice → Option Slice
slice_from n s =
    if leb n (length s.bytes)
    then some (record { start = s.start + n; bytes = drop n s.bytes })
    else none

-- `From<&[u8]>`: the second slice is the empty one at the end of the first.
unfoldable pub from_slice : Slice → ParsingContext
from_slice buffer = record {
  first = buffer;
  second = record { start = buffer.start + length buffer.bytes; bytes = [] };
}

-- `From<[&[u8]; 2]>`.
unfoldable pub from_slices : Slice → Slice → ParsingContext
from_slices a b = record { first = a; second = b }

unfoldable pub as_ptr : ParsingContext → ℕ
as_ptr c = c.first.start

unfoldable pub iter : ParsingContext → List ℕ
iter c = c.first.bytes ++ c.second.bytes

unfoldable pub input_len : ParsingContext → ℕ
input_len c = length c.first.bytes + length c.second.bytes

-- `Input::take`.
unfoldable pub take_first : ℕ → ParsingContext → Option ParsingContext
unfolding slice_to from_slice from_slices
take_first count c =
    if ltb count (length c.first.bytes)
    then (do s ← slice_to count c.first; some (from_slice s))
    else do s ← slice_to (count - length c.first.bytes) c.second; some (from_slices c.first s)

unfoldable pub take_from : ℕ → ParsingContext → Option ParsingContext
unfolding slice_from from_slice from_slices
take_from index c =
    if ltb index (length c.first.bytes)
    then (do s ← slice_from index c.first; some (from_slices s c.second))
    else do s ← slice_from (index - length c.first.bytes) c.second; some (from_slice s)

unfoldable pub take_split : ℕ → ParsingContext → Option (ParsingContext × ParsingContext)
unfolding slice_from slice_to from_slice from_slices
take_split index c =
    let needed = index - length c.first.bytes in
    if ltb index (length c.first.bytes)
    then (do
      rest ← slice_from index c.first
      begun ← slice_to index c.first
      some (from_slices rest c.second, from_slice begun))
    else do
      rest ← slice_from needed c.second
      begun ← slice_to needed c.second
      some (from_slice rest, from_slices c.first begun)

-- `Iterator::position`.
position_in : (ℕ → Bool) → List ℕ → Option ℕ
position_in p [] = none
position_in p (x ∷ xs) =
    let later = position_in p xs in
    if p x then some 0 else elim later [ none ↦ none | some n ↦ some (suc n) ]

unfoldable pub position : (ℕ → Bool) → ParsingContext → Option ℕ
unfolding position_in iter
position predicate c = position_in predicate (iter c)

-- `slice_index`: the count, or how many bytes are needed.
pub data Indexed : Type 0 where
  index : ℕ → Indexed
  needed : ℕ → Indexed

unfoldable pub slice_index : ℕ → ParsingContext → Indexed
unfolding input_len
slice_index count c = if leb count (input_len c) then index count else needed (count - input_len c)

pub data CompareResult : Type 0 where
  matched : CompareResult
  incomplete : CompareResult
  differs : CompareResult

-- `zip` and `any`.
unfoldable pub any_differs : (ℕ → ℕ → Bool) → List ℕ → List ℕ → Bool
any_differs same [] ys = false
any_differs same (x ∷ xs) [] = false
any_differs same (x ∷ xs) (y ∷ ys) =
    let later = any_differs same xs ys in if same x y then later else true

-- `compare`, and `compare_no_case` with a coarser test of bytes.
unfoldable pub compare_by : (ℕ → ℕ → Bool) → List ℕ → ParsingContext → CompareResult
unfolding any_differs iter input_len
compare_by same buf c =
    if any_differs same (iter c) buf
    then differs
    else if leb (length buf) (input_len c)
    then matched
    else incomplete

unfoldable pub compare : List ℕ → ParsingContext → CompareResult
unfolding compare_by
compare buf c = compare_by ◌==◌ buf c

abbrev pub to_ascii_lowercase : ℕ → ℕ
to_ascii_lowercase b = if leb 65 b && leb b 90 then b + 32 else b

abbrev pub eq_ignore_ascii_case : ℕ → ℕ → Bool
eq_ignore_ascii_case a b = to_ascii_lowercase a == to_ascii_lowercase b

unfoldable pub compare_no_case : List ℕ → ParsingContext → CompareResult
unfolding compare_by
compare_no_case buf c = compare_by eq_ignore_ascii_case buf c

-- `Buffer::parsing_context`.
unfoldable pub parsing_context : Buffer → ParsingContext
unfolding from_slice from_slices
parsing_context b =
    if b.available_data == 0
    then from_slice (record { start = b.end; bytes = [] })
    else if ltb b.position b.end
    then from_slice (record {
      start = b.position;
      bytes = take (b.end - b.position) (drop b.position b.memory);
    })
    else from_slices (record { start = b.position; bytes = drop b.position b.memory })
        (record { start = 0; bytes = take b.end b.memory })

-- `Buffer::offset`, with the memory from address `base` on.
unfoldable pub offset : ℕ → ParsingContext → Buffer → ℕ
unfolding as_ptr
offset base buf b =
    let dataptr = base + b.position in
    let bufptr = base + as_ptr buf in
    let startptr = base in
    if ltb dataptr bufptr then bufptr - dataptr else ((bufptr + b.capacity) - b.position) - startptr
