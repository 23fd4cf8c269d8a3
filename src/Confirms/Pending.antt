-- ===== src/Confirms/Pending.antt =====
-- Maps of pending tags, appended and searched.
use lapin.Base.{ℕ, ◌≤◌, ◌<◌, ◌≡◌, refl, none, List, [], ◌∷◌, ◌++◌, arith, All, ℕ_discrete}
use lapin.Base.Dict.{get, remove}
use lapin.Confirms.{Resolvers}

pub get-append :
    (k : ℕ) (xs ys : List (ℕ × Resolvers))
    → get ℕ_discrete k xs ≡ none
    → get ℕ_discrete k (xs ++ ys) ≡ get ℕ_discrete k ys
unfolding get
get-append k [] ys h = refl
get-append k ((j, v) ∷ xs) ys h = ground (arith, get-append k xs ys)

pub remove-append :
    (k : ℕ) (xs ys : List (ℕ × Resolvers))
    → remove ℕ_discrete k (xs ++ ys) ≡ remove ℕ_discrete k xs ++ remove ℕ_discrete k ys
unfolding remove
remove-append k [] ys = refl
remove-append k ((j, v) ∷ xs) ys = ground (arith, remove-append k xs ys)

pub above-absent :
    (t tag : ℕ) (kept : List (ℕ × Resolvers))
    → All (λ e. tag < e.0) kept
    → t ≤ tag
    → get ℕ_discrete t kept ≡ none
unfolding get
above-absent t tag [] h le = refl
above-absent t tag ((j, v) ∷ kept) h le = ground (arith, above-absent t tag kept h.1)

pub All-append_one :
    (tag : ℕ) (kept : List (ℕ × Resolvers)) (e : ℕ × Resolvers)
    → All (λ e. tag < e.0) kept
    → tag < e.0
    → All (λ e. tag < e.0) (kept ++ e ∷ [])
All-append_one tag [] e h lt = (lt, tt)
All-append_one tag (x ∷ kept) e h lt = (h.0, All-append_one tag kept e h.1 lt)
