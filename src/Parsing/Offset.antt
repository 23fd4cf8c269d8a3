-- ===== src/Parsing/Offset.antt =====
-- src/buffer.rs and src/parsing.rs: what a parser has taken from the view of a buffer is what the
-- loop then consumes.
use lapin.Base.{
  ℕ, ◌-◌, ◌≤◌, ◌<◌, ◌≡◌, some, length, take, drop, append-nil, arith, length-take, length-drop,
  length-append,
}
use lapin.Buffer.{Buffer, consume, contents, slices}
use lapin.Buffer.Inv.{IsValid}
use lapin.Buffer.Fifo.{length-contents}
use lapin.Buffer.Run.{contents-consume}
use lapin.Parsing.{
  ParsingContext, take_from, iter, input_len, slice_from, from_slice, from_slices, as_ptr,
  parsing_context, offset,
}
use lapin.Parsing.Flat.{take_split_lem}

pub iter-parsing_context : (b : Buffer) → iter (parsing_context b) ≡ contents b
unfolding iter parsing_context contents slices from_slice from_slices
iter-parsing_context b =
    ground (arith, append-nil (take (b.end - b.position) (drop b.position b.memory)))

input_len-iter : (c : ParsingContext) → input_len c ≡ length (iter c)
unfolding input_len iter
input_len-iter c = ground (arith, length-append c.first.bytes c.second.bytes)

pub offset-take_from :
    (base n : ℕ) (b : Buffer) (rest : ParsingContext)
    → IsValid b
    → 0 < n
    → n ≤ b.available_data
    → take_from n (parsing_context b) ≡ some rest
    → offset base rest b ≡ n
unfolding offset take_from parsing_context slice_from from_slice from_slices as_ptr
offset-take_from base n b rest v h k e = ground (
  arith,
  v.reaches,
  v.inside,
  v.fits,
  v.memory_size,
  length-take (b.end - b.position) (drop b.position b.memory),
  length-drop b.position b.memory,
  length-take b.end b.memory,
)

-- The rest of the view after `n` bytes.
pub rest_lem :
    (base n : ℕ) (b : Buffer)
    → IsValid b
    → 0 < n
    → n ≤ b.available_data
    → (rest : ParsingContext) × (take_from n (parsing_context b) ≡ some rest)
      × (offset base rest b ≡ n)
      × (iter rest ≡ drop n (contents b))
rest_lem base n b v h k =
    let all : n ≤ input_len (parsing_context b) =
      ground
        (arith, input_len-iter (parsing_context b), iter-parsing_context b, length-contents b v) in
    let cut = take_split_lem n (parsing_context b) all in
    (
      cut.0,
      cut.3,
      offset-take_from base n b cut.0 v h k cut.3,
      ground (arith, cut.5, iter-parsing_context b),
    )

-- On a valid buffer at any address, where a parser takes some of the bytes, from one to all, from the
-- view of the buffer: the offset of the rest in the buffer is their number, and after
-- `consume` of that offset, which does not panic, the buffer is valid and holds the bytes of the
-- rest.
pub consume-offset :
    (base n : ℕ) (b : Buffer)
    → IsValid b
    → 0 < n
    → n ≤ b.available_data
    → (rest : ParsingContext) × (b' : Buffer) × (take_from n (parsing_context b) ≡ some rest)
      × (consume (offset base rest b) b ≡ some (b', n))
      × IsValid b'
      × (contents b' ≡ iter rest)
consume-offset base n b v h k =
    let cut = rest_lem base n b v h k in
    let left = contents-consume n b v in
    (cut.0, left.0, cut.1, ground (arith, left.1, cut.2), left.2, ground (arith, left.4, cut.3))
