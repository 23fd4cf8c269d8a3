-- ===== src/Buffer/Grown.antt =====
-- src/buffer.rs: `grow` keeps the bytes that are in the buffer, where it does not panic.
use lapin.Base.{
  ℕ, zero, suc, ◌+◌, ◌-◌, ◌≤◌, ◌<◌, ◌≡◌, refl, max, ◌&&◌, Bool, false, some, arith, ltb, leb,
  length, List, ◌++◌, take, drop, if◌then◌else◌, get_elem?, get_elem?_ext, get_elem?-append,
  get_elem?-take, get_elem?-drop, length-append, length-take, length-drop, Bool-cases, inl, inr, ap,
  subst,
}
use lapin.Buffer.{Buffer, grow, contents, copy_to_front, zeros, moved, copy_into_growth}
use lapin.Buffer.Inv.{IsValid, wrap}
use lapin.Buffer.Fifo.{get_elem?-contents}

length-zeros : (n : ℕ) → length (zeros n) ≡ n
unfolding zeros
length-zeros zero = refl
length-zeros (suc n) = ground (arith, length-zeros n)

abbrev appended : ℕ → Buffer → Buffer
appended new_size b = record b {
  memory = b.memory ++ zeros (new_size - b.capacity);
  capacity = new_size;
}

abbrev shifted : ℕ → Buffer → Buffer
shifted new_size b =
    let growth = new_size - b.capacity in
    record b {
      memory = copy_to_front growth b.end (b.memory ++ take growth b.memory);
      capacity = new_size;
      end = b.end - growth;
    }

appended-IsValid :
    (new_size : ℕ) (b : Buffer)
    → IsValid b
    → b.capacity < new_size
    → (leb b.end b.position && ltb 0 b.available_data) ≡ false
    → IsValid (appended new_size b)
appended-IsValid new_size b v h e = record {
  memory_size = ground (
    arith,
    v.memory_size,
    length-append b.memory (zeros (new_size - b.capacity)),
    length-zeros (new_size - b.capacity),
  );
  positive = ground arith;
  inside = ground (arith, v.inside);
  fits = ground (arith, v.fits);
  reaches = ground (arith, v.reaches, v.fits, v.inside);
}

contents-appended :
    (new_size : ℕ) (b : Buffer)
    → IsValid b
    → b.capacity < new_size
    → (leb b.end b.position && ltb 0 b.available_data) ≡ false
    → contents (appended new_size b) ≡ contents b
contents-appended new_size b v h e =
    get_elem?_ext (contents (appended new_size b)) (contents b) (λ i. ground (
      arith,
      v.reaches,
      v.fits,
      v.inside,
      v.memory_size,
      get_elem?-contents (appended new_size b) i (appended-IsValid new_size b v h e),
      get_elem?-contents b i v,
      get_elem?-append b.memory (zeros (new_size - b.capacity)) (b.position + i),
    ))

length-copy_to_front :
    (growth end : ℕ) (memory : List ℕ)
    → growth ≤ end
    → end ≤ length memory
    → length (copy_to_front growth end memory) ≡ length memory
unfolding copy_to_front
length-copy_to_front growth end memory g h = ground (
  arith,
  length-append (take (end - growth) (drop growth memory)) (drop (end - growth) memory),
  length-take (end - growth) (drop growth memory),
  length-drop growth memory,
  length-drop (end - growth) memory,
)

get_elem?-copy_to_front :
    (growth end : ℕ) (memory : List ℕ) (i : ℕ)
    → growth ≤ end
    → end ≤ length memory
    → get_elem? (copy_to_front growth end memory) i
      ≡ (if ltb i (end - growth) then get_elem? memory (growth + i) else get_elem? memory i)
unfolding copy_to_front
get_elem?-copy_to_front growth end memory i g h = ground (
  arith,
  get_elem?-append (take (end - growth) (drop growth memory)) (drop (end - growth) memory) i,
  length-take (end - growth) (drop growth memory),
  length-drop growth memory,
  get_elem?-take (end - growth) (drop growth memory) i,
  get_elem?-drop growth memory i,
  get_elem?-drop (end - growth) memory (i - (end - growth)),
)

module _ (new_size : ℕ) (b : Buffer) (v : IsValid b) (larger : b.capacity < new_size)
    (wraps : b.end ≤ b.position) (some_data : 0 < b.available_data)
    (room_in_front : new_size - b.capacity ≤ b.end) where
  shifted-IsValid : IsValid (shifted new_size b)
  shifted-IsValid =
      let growth = new_size - b.capacity in
      record {
        memory_size = ground (
          arith,
          v.memory_size,
          v.inside,
          length-copy_to_front growth b.end (b.memory ++ take growth b.memory),
          length-append b.memory (take growth b.memory),
          length-take growth b.memory,
        );
        positive = ground arith;
        inside = ground (arith, v.inside);
        fits = ground (arith, v.fits);
        reaches = ground (arith, v.reaches, v.fits, v.inside);
      }

  contents-shifted : contents (shifted new_size b) ≡ contents b
  contents-shifted =
      let growth = new_size - b.capacity in
      get_elem?_ext (contents (shifted new_size b)) (contents b) (λ i.
        let at = wrap new_size (b.position + i) in
        ground (
          arith,
          v.reaches,
          v.fits,
          v.inside,
          v.memory_size,
          get_elem?-contents (shifted new_size b) i shifted-IsValid,
          get_elem?-contents b i v,
          get_elem?-copy_to_front growth b.end (b.memory ++ take growth b.memory) at,
          get_elem?-append b.memory (take growth b.memory) at,
          get_elem?-append b.memory (take growth b.memory) (growth + at),
          get_elem?-take growth b.memory (at - b.capacity),
          length-append b.memory (take growth b.memory),
        ))

ended :
    {b' : Buffer} {grown : Bool} (new_size : ℕ) (b c : Buffer)
    → c ≡ b'
    → IsValid c
    → contents c ≡ contents b
    → c.capacity ≡ max b.capacity new_size
    → grown ≡ ltb b.capacity new_size
    → IsValid b'
      × (contents b' ≡ contents b)
      × (b'.capacity ≡ max b.capacity new_size)
      × (grown ≡ ltb b.capacity new_size)
ended new_size b c e v h m g = (subst IsValid e v, cc (h, ap contents e), ground (arith, e), g)

-- `grow` of a valid buffer, where it does not panic: the buffer is valid and holds the same bytes,
-- in order, and its capacity is the larger of the old one and the size asked for. It is as
-- told whether it has grown.
pub grow-contents :
    (new_size : ℕ) (b b' : Buffer) (grown : Bool)
    → IsValid b
    → grow new_size b ≡ some (b', grown)
    → IsValid b'
      × (contents b' ≡ contents b)
      × (b'.capacity ≡ max b.capacity new_size)
      × (grown ≡ ltb b.capacity new_size)
unfolding grow moved copy_into_growth
grow-contents new_size b b' grown v e = elim (Bool-cases (leb new_size b.capacity)) [
  | inl s ↦ ended new_size b b (ground arith) v refl (ground arith) (ground arith)
  | inr l ↦ elim (Bool-cases (leb b.end b.position && ltb 0 b.available_data)) [
    | inl w ↦
        ended new_size b (shifted new_size b) (ground arith)
          (shifted-IsValid new_size b v (ground arith) (ground arith) (ground arith) (ground arith))
          (contents-shifted new_size b v (ground arith) (ground arith) (ground arith)
            (ground arith))
          (ground arith) (ground arith)
    | inr a ↦
        ended new_size b (appended new_size b) (ground arith)
          (appended-IsValid new_size b v (ground arith) a)
          (contents-appended new_size b v (ground arith) a) (ground arith) (ground arith)
  ]
]
