-- ===== src/Payload/Chunks.antt =====
-- The pieces of a payload: they make it up, and none is empty or too long for a frame.
use lapin.Base.{
  ℕ, zero, suc, ◌-◌, ◌≤◌, ◌<◌, ◌≡◌, refl, ap, ◌∙◌, List, [], ◌∷◌, ◌++◌, arith, All, max, length,
  take, drop, length-take, length-drop, take-append-drop,
}
use lapin.Payload.{chunks, chunks_of, chunk_size}

module _ {ℓ} {A : Type ℓ} where
  abbrev pub concat : List (List A) → List A
  concat [] = []
  concat (xs ∷ xss) = xs ++ concat xss

  chunks_of-concat :
      (rounds size : ℕ) (xs : List A)
      → 0 < size
      → length xs ≤ rounds
      → concat (chunks_of rounds size xs) ≡ xs
  unfolding chunks_of
  chunks_of-concat zero size [] p h = refl
  chunks_of-concat zero size (x ∷ xs) p h = absurd (omega arith)
  chunks_of-concat (suc rounds) size [] p h = refl
  chunks_of-concat (suc rounds) size (x ∷ xs) p h =
      ap (◌++◌ (take size (x ∷ xs))) (
        chunks_of-concat rounds size (drop size (x ∷ xs)) p
          (omega (arith, length-drop size (x ∷ xs))))
      ∙ take-append-drop size (x ∷ xs)

  chunks_of_sizes :
      (rounds size : ℕ) (xs : List A)
      → 0 < size
      → All (λ c. (0 < length c) × (length c ≤ size)) (chunks_of rounds size xs)
  unfolding chunks_of
  chunks_of_sizes zero size xs p = tt
  chunks_of_sizes (suc rounds) size [] p = tt
  chunks_of_sizes (suc rounds) size (x ∷ xs) p = (
    (omega (arith, length-take size (x ∷ xs)), omega (arith, length-take size (x ∷ xs))),
    chunks_of_sizes rounds size (drop size (x ∷ xs)) p,
  )

-- The pieces of a payload put together are the payload; none is empty, and each fits a frame of
-- the negotiated size beside the 8 bytes of the frame itself, where that size is above 8.
pub chunks_lem :
    (frame_max : ℕ) (payload : List ℕ)
    → (concat (chunks (chunk_size frame_max) payload) ≡ payload)
      × All
          (λ c. (0 < length c) × (length c ≤ max (frame_max - 8) 1))
          (chunks (chunk_size frame_max) payload)
unfolding chunks chunk_size
chunks_lem frame_max payload = (
  chunks_of-concat (length payload) (max (frame_max - 8) 1) payload (omega arith) (omega arith),
  chunks_of_sizes (length payload) (max (frame_max - 8) 1) payload (omega arith),
)
