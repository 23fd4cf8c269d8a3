-- ===== src/Buffer/Run.antt =====
-- src/buffer.rs: any sequence of writes, reads from the socket and consumptions, against a bounded
-- queue of bytes.
use lapin.Base.{
  ℕ, ◌+◌, ◌-◌, ◌≡◌, refl, min, Option, some, arith, length, List, [], ◌∷◌, ◌++◌, take, ◌>>=◌, drop,
  get_elem?_ext, get_elem?-drop,
}
use lapin.Buffer.{Buffer, consume, fill, contents}
use lapin.Buffer.Bytes.{write, poll_read_from}
use lapin.Buffer.Inv.{IsValid, mod_wrap, drained, drained-IsValid}
use lapin.Buffer.Fifo.{refilled, get_elem?-contents, length-contents}
use lapin.Buffer.Stored.{
  contents-taken_in, taken_in-IsValid, write_lem, poll_read_from_lem, room, taken_in,
}

pub contents-consume :
    (count : ℕ) (b : Buffer)
    → IsValid b
    → (b' : Buffer) × (consume count b ≡ some (b', min count b.available_data))
      × IsValid b'
      × (b'.capacity ≡ b.capacity)
      × (contents b' ≡ drop (min count b.available_data) (contents b))
unfolding consume
contents-consume count b v =
    let n = min count b.available_data in
    let v' = drained-IsValid n b v (ground arith) in
    (
      drained n b,
      ground (arith, v.positive),
      v',
      refl,
      get_elem?_ext (contents (drained n b)) (drop n (contents b)) (λ i. ground (
        arith,
        v.inside,
        v.fits,
        mod_wrap (b.position + n) b.capacity (ground (arith, v.inside, v.fits)),
        get_elem?-contents (drained n b) i v',
        get_elem?-contents b (n + i) v,
        get_elem?-drop n (contents b) i,
      )),
    )

-- What the library does with a buffer: `write` from the serializer, `read` from the socket and
-- `fill`, and `consume` once bytes are parsed or sent.
pub data Use : Type 0 where
  written : List ℕ → Use
  read : List ℕ → Use
  consumed : ℕ → Use

unfoldable pub use_buffer : Use → Buffer → Option (Buffer × ℕ)
use_buffer (written bytes) b = write bytes b
use_buffer (read given) b = let got = poll_read_from given b in fill got.1 got.0
use_buffer (consumed count) b = consume count b

unfoldable pub use_all : List Use → Buffer → Option (Buffer × List ℕ)
unfolding use_buffer
use_all [] b = some (b, [])
use_all (u ∷ us) b = do r ← use_buffer u b; rest ← use_all us r.0; some (rest.0, r.1 ∷ rest.1)

-- The bounded queue of bytes.
unfoldable pub queue_step : ℕ → Use → List ℕ → List ℕ × ℕ
queue_step capacity (written bytes) q =
    let n = min (length bytes) (capacity - length q) in (q ++ take n bytes, n)
queue_step capacity (read given) q =
    let n = min (length given) (capacity - length q) in (q ++ take n given, n)
queue_step capacity (consumed count) q = let n = min count (length q) in (drop n q, n)

unfoldable pub queue_all : ℕ → List Use → List ℕ → List ℕ × List ℕ
unfolding queue_step
queue_all capacity [] q = (q, [])
queue_all capacity (u ∷ us) q =
    let r = queue_step capacity u q in
    let rest = queue_all capacity us r.0 in (rest.0, r.1 ∷ rest.1)

fill_as_told :
    (given : List ℕ) (b : Buffer)
    → IsValid b
    → fill (room given b) (record b { memory = taken_in given b })
      ≡ some (refilled (taken_in given b) (room given b) b, room given b)
unfolding fill
fill_as_told given b v = ground (arith, v.positive)

-- One use: the buffer stays valid and as large, and its bytes and the result are the queue's.
pub use_buffer-queue_step :
    (u : Use) (b : Buffer)
    → IsValid b
    → (b' : Buffer) × (use_buffer u b ≡ some (b', (queue_step b.capacity u (contents b)).1))
      × IsValid b'
      × (b'.capacity ≡ b.capacity)
      × (contents b' ≡ (queue_step b.capacity u (contents b)).0)
unfolding use_buffer queue_step
use_buffer-queue_step (written bytes) b v = (
  refilled (taken_in bytes b) (room bytes b) b,
  ground (arith, write_lem bytes b v, length-contents b v),
  taken_in-IsValid bytes b v,
  refl,
  ground (arith, contents-taken_in bytes b v, length-contents b v),
)
use_buffer-queue_step (read given) b v = (
  refilled (taken_in given b) (room given b) b,
  ground (
    arith,
    v.positive,
    poll_read_from_lem given b v,
    fill_as_told given b v,
    length-contents b v,
  ),
  taken_in-IsValid given b v,
  refl,
  ground (arith, contents-taken_in given b v, length-contents b v),
)
use_buffer-queue_step (consumed count) b v =
    let left = contents-consume count b v in
    (
      left.0,
      ground (arith, left.1, length-contents b v),
      left.2,
      left.3,
      ground (arith, left.4, length-contents b v),
    )

-- Any sequence of writes, reads from the socket and consumptions on a valid buffer runs without a
-- panic: the numbers that it returns, and the bytes that are then in the buffer, are those of a
-- queue of bytes that holds at most the capacity, and the buffer is valid.
pub use_all-queue_all :
    (us : List Use) (b : Buffer)
    → IsValid b
    → (b' : Buffer) × (use_all us b ≡ some (b', (queue_all b.capacity us (contents b)).1))
      × IsValid b'
      × (contents b' ≡ (queue_all b.capacity us (contents b)).0)
unfolding use_all queue_all
use_all-queue_all [] b v = (b, refl, v, refl)
use_all-queue_all (u ∷ us) b v =
    let now = use_buffer-queue_step u b v in
    let later = use_all-queue_all us now.0 now.2 in
    (
      later.0,
      ground (arith, now.1, now.3, now.4, later.1),
      later.2,
      ground (arith, now.3, now.4, later.3),
    )
