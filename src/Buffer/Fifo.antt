-- ===== src/Buffer/Fifo.antt =====
-- The buffer as a bounded queue of bytes.
use lapin.Base.{
  ℕ, ◌+◌, ◌-◌, ◌%◌, ◌≤◌, ◌<◌, ◌≡◌, inl, inr, Option, none, arith, ltb, leb, length, List, ◌++◌,
  take, drop, Bool-cases, if◌then◌else◌, get_elem?, get_elem?-append, get_elem?-take,
  get_elem?-drop, get_elem?_ext, length-append, length-take, length-drop,
}
use lapin.Buffer.{Buffer, contents, slices}
use lapin.Buffer.Bytes.{overwrite}
use lapin.Buffer.Inv.{IsValid, wrap, end_filled}

pub get_elem?-overwrite :
    (at : ℕ) (bytes memory : List ℕ) (i : ℕ)
    → at ≤ length memory
    → get_elem? (overwrite at bytes memory) i ≡ (
        if ltb i at
        then get_elem? memory i
        else if ltb i (at + length bytes)
        then get_elem? bytes (i - at)
        else get_elem? memory i)
unfolding overwrite
get_elem?-overwrite at bytes memory i h = ground (
  arith,
  get_elem?-append (take at memory) (bytes ++ drop (at + length bytes) memory) i,
  get_elem?-append bytes (drop (at + length bytes) memory) (i - at),
  get_elem?-take at memory i,
  get_elem?-drop (at + length bytes) memory (i - at - length bytes),
  length-take at memory,
)

pub length-overwrite :
    (at : ℕ) (bytes memory : List ℕ)
    → at + length bytes ≤ length memory
    → length (overwrite at bytes memory) ≡ length memory
unfolding overwrite
length-overwrite at bytes memory h = ground (
  arith,
  length-append (take at memory) (bytes ++ drop (at + length bytes) memory),
  length-append bytes (drop (at + length bytes) memory),
  length-take at memory,
  length-drop (at + length bytes) memory,
)

-- A byte of the data stands in the memory at its distance from the position, round the memory.
pub get_elem?-contents :
    (b : Buffer) (i : ℕ)
    → IsValid b
    → get_elem? (contents b) i ≡ (
        if ltb i b.available_data
        then get_elem? b.memory (wrap b.capacity (b.position + i))
        else none)
unfolding contents slices
get_elem?-contents b i v = ground (
  arith,
  v.reaches,
  v.memory_size,
  v.fits,
  v.inside,
  v.positive,
  get_elem?-append (slices b).0 (slices b).1 i,
  get_elem?-take (b.end - b.position) (drop b.position b.memory) i,
  get_elem?-drop b.position b.memory i,
  get_elem?-take b.end b.memory (i - length (drop b.position b.memory)),
  length-take (b.end - b.position) (drop b.position b.memory),
  length-drop b.position b.memory,
)

pub length-contents : (b : Buffer) → IsValid b → length (contents b) ≡ b.available_data
unfolding contents slices
length-contents b v = ground (
  arith,
  v.reaches,
  v.memory_size,
  v.fits,
  v.inside,
  v.positive,
  length-append (slices b).0 (slices b).1,
  length-take (b.end - b.position) (drop b.position b.memory),
  length-drop b.position b.memory,
  length-take b.end b.memory,
)

-- What stands at an index of the memory once `n` bytes are placed from the end on, round it.
abbrev pub placed : Buffer → ℕ → List ℕ → ℕ → Option ℕ
placed b n bytes i =
    let from = if leb b.end i then i - b.end else (b.capacity + i) - b.end in
    if ltb from n then get_elem? bytes from else get_elem? b.memory i

-- The buffer with a new memory that counts `n` more bytes as data.
abbrev pub refilled : List ℕ → ℕ → Buffer → Buffer
refilled memory n b = record b {
  memory = memory;
  end = (b.end + n) % b.capacity;
  available_data = b.available_data + n;
}

pub refilled-IsValid :
    (b : Buffer) (memory : List ℕ) (n : ℕ)
    → IsValid b
    → n ≤ b.capacity - b.available_data
    → length memory ≡ length b.memory
    → IsValid (refilled memory n b)
refilled-IsValid b memory n v r l = record {
  memory_size = ground (arith, v.memory_size);
  positive = v.positive;
  inside = v.inside;
  fits = ground (arith, v.fits);
  reaches = ground (
    arith,
    v.reaches,
    v.fits,
    end_filled b.capacity b.position b.available_data n v.inside (ground (arith, v.fits)),
  );
}

pub contents-refilled :
    (b : Buffer) (memory bytes : List ℕ) (n : ℕ)
    → IsValid b
    → n ≤ b.capacity - b.available_data
    → n ≤ length bytes
    → length memory ≡ length b.memory
    → ((i : ℕ) → i < b.capacity → get_elem? memory i ≡ placed b n bytes i)
    → contents (refilled memory n b) ≡ contents b ++ take n bytes
contents-refilled b memory bytes n v r s l p =
    get_elem?_ext (contents (refilled memory n b)) (contents b ++ take n bytes) (λ i.
      let at = wrap b.capacity (b.position + i) in
      elim (Bool-cases (ltb i (b.available_data + n))) [
        | inl e ↦ ground (
          arith,
          v.reaches,
          v.fits,
          v.inside,
          p at (ground (arith, v.fits, v.inside)),
          get_elem?-contents (refilled memory n b) i (refilled-IsValid b memory n v r l),
          get_elem?-contents b i v,
          get_elem?-append (contents b) (take n bytes) i,
          length-contents b v,
          get_elem?-take n bytes (i - length (contents b)),
        )
        | inr e ↦ ground (
          arith,
          get_elem?-contents (refilled memory n b) i (refilled-IsValid b memory n v r l),
          get_elem?-append (contents b) (take n bytes) i,
          length-contents b v,
          get_elem?-take n bytes (i - length (contents b)),
        )
      ])
