-- ===== src/Parsing/Prefix.antt =====
-- src/parsing.rs: `compare` against what it is for, a prefix of the bytes in the two slices.
use lapin.Base.{
  ℕ, zero, suc, ◌≤◌, ◌<◌, ◌≡◌, refl, ◌↔◌, List, [], ◌∷◌, length, take, false, leb, ◌==◌,
  if◌then◌else◌, arith, ap, subst, length-append,
}
use lapin.Parsing.{
  ParsingContext, CompareResult, matched, incomplete, differs, compare, compare_by, any_differs,
  iter, input_len,
}

-- Two lists do not differ where both go on exactly when the beginnings of the same length are equal.
any_differs-take :
    (xs ys : List ℕ)
    → (any_differs ◌==◌ xs ys ≡ false) ↔ (take (length ys) xs ≡ take (length xs) ys)
unfolding any_differs
any_differs-take [] [] = (λ e. refl, λ e. refl)
any_differs-take [] (y ∷ ys) = (λ e. refl, λ e. refl)
any_differs-take (x ∷ xs) [] = (λ e. refl, λ e. refl)
any_differs-take (x ∷ xs) (y ∷ ys) =
    (λ e. ground (arith, any_differs-take xs ys), λ e. ground (arith, any_differs-take xs ys))

take-all : (xs : List ℕ) (n : ℕ) → length xs ≤ n → take n xs ≡ xs
take-all [] zero h = refl
take-all [] (suc n) h = refl
take-all (x ∷ xs) zero h = ground arith
take-all (x ∷ xs) (suc n) h = ap (◌∷◌ x) (take-all xs n (omega arith))

abbrev verdict : List ℕ → List ℕ → CompareResult
verdict xs ys =
    if any_differs ◌==◌ xs ys
    then differs
    else if leb (length ys) (length xs)
    then matched
    else incomplete

matched_lem :
    (xs ys : List ℕ)
    → (verdict xs ys ≡ matched) ↔ ((length ys ≤ length xs) × (take (length ys) xs ≡ ys))
matched_lem xs ys = (
  λ e. (ground arith, ground (arith, (any_differs-take xs ys).0, take-all ys (length xs))),
  λ (h, t). ground (arith, (any_differs-take xs ys).1, take-all ys (length xs)),
)

incomplete_lem :
    (xs ys : List ℕ)
    → (verdict xs ys ≡ incomplete) ↔ ((length xs < length ys) × (take (length xs) ys ≡ xs))
incomplete_lem xs ys = (
  λ e. (ground arith, ground (arith, (any_differs-take xs ys).0, take-all xs (length ys))),
  λ (h, t). ground (arith, (any_differs-take xs ys).1, take-all xs (length ys)),
)

compare-verdict : (buf : List ℕ) (c : ParsingContext) → verdict (iter c) buf ≡ compare buf c
unfolding compare compare_by input_len iter
compare-verdict buf c = ground (arith, length-append c.first.bytes c.second.bytes)

-- The comparison of the bytes of a view with a text: it matches exactly when the text is what the
-- bytes begin with; it is incomplete exactly when there are fewer bytes than the text has and the
-- text begins with them.
pub compare_lem :
    (buf : List ℕ) (c : ParsingContext)
    → ((compare buf c ≡ matched)
        ↔ ((length buf ≤ length (iter c)) × (take (length buf) (iter c) ≡ buf)))
      × ((compare buf c ≡ incomplete)
          ↔ ((length (iter c) < length buf) × (take (length (iter c)) buf ≡ iter c)))
compare_lem buf c = (
  subst (λ r. (r ≡ matched) ↔ ((length buf ≤ length (iter c)) × (take (length buf) (iter c) ≡ buf)))
      (compare-verdict buf c) (matched_lem (iter c) buf),
  subst
      (λ r.
        (r ≡ incomplete) ↔ ((length (iter c) < length buf) × (take (length (iter c)) buf ≡ iter c)))
      (compare-verdict buf c) (incomplete_lem (iter c) buf),
)
