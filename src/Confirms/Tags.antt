-- ===== src/Confirms/Tags.antt =====
-- Delivery tags: those pending are distinct and were handed out, so each publish gets a new one.
use lapin.Base.{
  ℕ, ◌+◌, ◌≤◌, ◌<◌, ◌≡◌, refl, Bool, false, none, some, List, [], ◌∷◌, ◌++◌, arith, All, ℕ_discrete,
}
use lapin.Base.Dict
use lapin.Base.Dict.{get, insert, remove}
use lapin.Sequence
use lapin.Sequence.Cycle.{next_unbounded, current-next}
use lapin.Frame.{PromiseId}
use lapin.Confirms.{
  tag_size, Resolvers, Acknowledgements, register_pending, drop_pending, complete_pending,
}

-- Every key is below `n`, and stands once.
abbrev pub Fresh : ℕ → List (ℕ × Resolvers) → Type 0
Fresh n = All (λ e. e.0 < n)

abbrev pub IsDistinct : List (ℕ × Resolvers) → Type 0
IsDistinct [] = Unit
IsDistinct ((k, v) ∷ m) = (get ℕ_discrete k m ≡ none) × IsDistinct m

pub record IsValid {P E : Type 0} (a : Acknowledgements P E) : Type 0 where
  pub no_zero : a.delivery_tag.allow_zero ≡ false
  pub no_max : a.delivery_tag.max ≡ none
  pub fresh : Fresh a.delivery_tag.id a.pending
  pub distinct : IsDistinct a.pending

get-Fresh : (k n : ℕ) (m : List (ℕ × Resolvers)) → Fresh n m → n ≤ k → get ℕ_discrete k m ≡ none
unfolding get
get-Fresh k n [] f h = refl
get-Fresh k n ((j, v) ∷ m) f h = ground (arith, get-Fresh k n m f.1 h)

insert-Fresh :
    (k n : ℕ) (v : Resolvers) (m : List (ℕ × Resolvers))
    → Fresh n m
    → n ≤ k
    → insert ℕ_discrete k v m ≡ m ++ (k, v) ∷ []
unfolding insert
insert-Fresh k n v [] f h = refl
insert-Fresh k n v ((j, w) ∷ m) f h = ground (arith, insert-Fresh k n v m f.1 h)

Fresh-append :
    (k n : ℕ) (v : Resolvers) (m : List (ℕ × Resolvers))
    → Fresh n m
    → n ≤ k
    → Fresh (k + 1) (m ++ (k, v) ∷ [])
Fresh-append k n v [] f h = (omega arith, tt)
Fresh-append k n v (e ∷ m) f h = (omega arith, Fresh-append k n v m f.1 h)

get-append_one :
    (j k : ℕ) (v : Resolvers) (m : List (ℕ × Resolvers))
    → get ℕ_discrete j m ≡ none
    → j < k
    → get ℕ_discrete j (m ++ (k, v) ∷ []) ≡ none
unfolding get
get-append_one j k v [] e h = ground arith
get-append_one j k v ((i, w) ∷ m) e h = ground (arith, get-append_one j k v m)

IsDistinct-append :
    (k n : ℕ) (v : Resolvers) (m : List (ℕ × Resolvers))
    → Fresh n m
    → n ≤ k
    → IsDistinct m
    → IsDistinct (m ++ (k, v) ∷ [])
unfolding get
IsDistinct-append k n v [] f h d = (refl, tt)
IsDistinct-append k n v ((j, w) ∷ m) f h d =
    (get-append_one j k v m d.0 (omega arith), IsDistinct-append k n v m f.1 h d.1)

pub remove-absent :
    (k : ℕ) (m : List (ℕ × Resolvers)) → get ℕ_discrete k m ≡ none → remove ℕ_discrete k m ≡ m
unfolding get remove
remove-absent k [] e = refl
remove-absent k ((j, v) ∷ m) e = ground (arith, remove-absent k m)

Fresh-remove : (k n : ℕ) (m : List (ℕ × Resolvers)) → Fresh n m → Fresh n (remove ℕ_discrete k m)
unfolding remove
Fresh-remove k n [] f = tt
Fresh-remove k n ((j, v) ∷ m) f = ground (arith, Fresh-remove k n m f.1)

IsDistinct-remove :
    (k : ℕ) (m : List (ℕ × Resolvers)) → IsDistinct m → IsDistinct (remove ℕ_discrete k m)
unfolding remove
IsDistinct-remove k [] d = tt
IsDistinct-remove k ((j, v) ∷ m) d =
    ground (arith, IsDistinct-remove k m d.1, Dict.get-remove ℕ_discrete k j m)

module _ {P E : Type 0} where
  -- Registering a publish, while fewer than 2^64 - 2 tags were handed out, keeps the pending tags
  -- distinct and below the next one; its tag was not pending, becomes the current one, and goes
  -- with the publish's resolvers to the end of those pending.
  pub register_pending-IsValid :
      (promise err_promise : PromiseId) (a : Acknowledgements P E)
      → IsValid a
      → a.delivery_tag.id + 2 < tag_size
      → let a' = (register_pending promise err_promise a).0 in
        let tag = (Sequence.next tag_size a.delivery_tag).0 in
        IsValid a'
        × (get ℕ_discrete tag a.pending ≡ none)
        × (Sequence.current a'.delivery_tag ≡ some tag)
        × (a'.pending ≡ a.pending ++ (tag, (promise, err_promise)) ∷ [])
  unfolding register_pending
  register_pending-IsValid promise err_promise a v h =
      let s = a.delivery_tag in
      let tag = (Sequence.next tag_size s).0 in
      let (above, after) = next_unbounded tag_size s v.no_zero v.no_max h in
      let pair : Resolvers = (promise, err_promise) in
      let pushed = insert-Fresh tag s.id pair a.pending v.fresh above in
      (
        record {
          no_zero = rw after refl;
          no_max = rw after refl;
          fresh = rw (after, pushed) (Fresh-append tag s.id pair a.pending v.fresh above);
          distinct = rw pushed (IsDistinct-append tag s.id pair a.pending v.fresh above v.distinct);
        },
        get-Fresh tag s.id a.pending v.fresh above,
        current-next tag_size s h,
        pushed,
      )

  -- Completing a tag, pending or not, keeps the pending tags valid.
  pub drop_pending-IsValid :
      (tag : ℕ) (success : Bool) (a : Acknowledgements P E)
      → IsValid a
      → IsValid (drop_pending tag success a).0
  unfolding drop_pending complete_pending
  drop_pending-IsValid tag success a v = ground (
    arith,
    Fresh-remove tag a.delivery_tag.id a.pending v.fresh,
    IsDistinct-remove tag a.pending v.distinct,
  )
