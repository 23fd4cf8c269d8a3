-- ===== src/Confirms/Settle.antt =====
-- Which confirms an acknowledgement settles, and what an error does to those pending.
use lapin.Base.{
  ℕ, ◌<◌, ◌≡◌, refl, ap, Bool, not, none, some, List, [], ◌∷◌, ◌++◌, map, arith, All, retain, leb,
  ℕ_discrete, append_assoc, if◌then◌else◌, Bool-cases, inl, inr, leb→le,
}
use lapin.Base.Dict
use lapin.Base.Dict.{get, remove}
use lapin.Frame.{PromiseId}
use lapin.Confirms.{
  Resolvers, Acknowledgements, Effect, confirmed, confirm_rejected, wait_resolved, wait_rejected,
  is_current, ok, precondition_failed, drop_pending, drop_each, complete_pending,
  complete_pending_before,
}
use lapin.Confirms.Pending.{get-append, remove-append, above-absent, All-append_one}
use lapin.Confirms.Tags.{IsDistinct, remove-absent}

module _ {P E : Type 0} where
  -- The confirms that a list of effects settles, in order.
  abbrev pub settled : List (Effect P E) → List PromiseId
  settled [] = []
  settled (confirmed p c ∷ es) = p ∷ settled es
  settled (confirm_rejected p e ∷ es) = p ∷ settled es
  settled (wait_resolved p ∷ es) = settled es
  settled (wait_rejected p e ∷ es) = settled es

  -- The promises of `wait_for_confirms` that a list of effects completes, in order.
  abbrev pub woken : List (Effect P E) → List PromiseId
  woken [] = []
  woken (confirmed p c ∷ es) = woken es
  woken (confirm_rejected p e ∷ es) = woken es
  woken (wait_resolved p ∷ es) = p ∷ woken es
  woken (wait_rejected p e ∷ es) = p ∷ woken es

  settled-append : (xs ys : List (Effect P E)) → settled (xs ++ ys) ≡ settled xs ++ settled ys
  settled-append [] ys = refl
  settled-append (confirmed p c ∷ xs) ys = ap (◌∷◌ p) (settled-append xs ys)
  settled-append (confirm_rejected p e ∷ xs) ys = ap (◌∷◌ p) (settled-append xs ys)
  settled-append (wait_resolved p ∷ xs) ys = settled-append xs ys
  settled-append (wait_rejected p e ∷ xs) ys = settled-append xs ys

-- The confirms of a list of pending tags.
abbrev pub confirms : List (ℕ × Resolvers) → List PromiseId
confirms = map λ e. e.1.0

abbrev upto : ℕ → List (ℕ × Resolvers) → List (ℕ × Resolvers)
upto tag = retain λ e. leb e.0 tag

abbrev beyond : ℕ → List (ℕ × Resolvers) → List (ℕ × Resolvers)
beyond tag = retain λ e. not (leb e.0 tag)

module _ {P E : Type 0} where
  -- A tag that is pending is settled once: the call succeeds, completes that confirm and no other,
  -- wakes `wait_for_confirms` exactly if the tag is the last one handed out, whatever else is still
  -- pending, and leaves the other tags; the same call again is an error that changes nothing.
  pub drop_pending_twice :
      (tag : ℕ) (success : Bool) (a : Acknowledgements P E) (r : Resolvers)
      → get ℕ_discrete tag a.pending ≡ some r
      → let (a', effects, res) = drop_pending tag success a in
        (res ≡ ok)
        × (settled effects ≡ r.0 ∷ [])
        × (woken effects ≡ (if is_current tag a.delivery_tag then r.1 ∷ [] else []))
        × (a'.pending ≡ remove ℕ_discrete tag a.pending)
        × (drop_pending tag success a' ≡ (a', [], precondition_failed success tag))
  unfolding drop_pending complete_pending
  drop_pending_twice tag success a r e =
      ground (arith, Dict.get-remove ℕ_discrete tag tag a.pending)

  -- Dropping the tag that stands behind `kept`, where it stands once.
  drop_one :
      (t : ℕ) (success : Bool) (kept m : List (ℕ × Resolvers)) (v : Resolvers)
      (a : Acknowledgements P E)
      → get ℕ_discrete t kept ≡ none
      → get ℕ_discrete t m ≡ none
      → a.pending ≡ kept ++ (t, v) ∷ m
      → let (a', effects, res) = drop_pending t success a in
        (res ≡ ok) × (settled effects ≡ v.0 ∷ []) × (a'.pending ≡ kept ++ m)
  unfolding drop_pending complete_pending get remove
  drop_one t success kept m v a hk hm e = ground (
    arith,
    get-append t kept ((t, v) ∷ m) hk,
    remove-append t kept ((t, v) ∷ m),
    remove-absent t kept hk,
    remove-absent t m hm,
  )

  drop_each_lem :
      (tag : ℕ) (success : Bool) (m kept : List (ℕ × Resolvers)) (a : Acknowledgements P E)
      → All (λ e. tag < e.0) kept
      → IsDistinct m
      → a.pending ≡ kept ++ m
      → let (a', effects, res) = drop_each (retain (λ t. leb t tag) (Dict.keys m)) success ok a in
        (res ≡ ok) × (settled effects ≡ confirms (upto tag m)) × (a'.pending ≡ kept ++ beyond tag m)
  unfolding drop_each
  drop_each_lem tag success [] kept a hk d e = ground arith
  drop_each_lem tag success ((t, v) ∷ m) kept a hk d e = elim (Bool-cases (leb t tag)) [
    | inl le ↦ ground (
      arith,
      drop_one t success kept m v a (above-absent t tag kept hk (leb→le t tag le)) d.0 e,
      drop_each_lem tag success m kept (drop_pending t success a).0 hk d.1,
      settled-append (drop_pending t success a).1
          (drop_each (retain (λ t. leb t tag) (Dict.keys m)) success ok
            (drop_pending t success a).0).1,
    )
    | inr gt ↦ ground (
      arith,
      append_assoc kept ((t, v) ∷ []) m,
      append_assoc kept ((t, v) ∷ []) (beyond tag m),
      drop_each_lem tag success m (kept ++ (t, v) ∷ []) a
          (All-append_one tag kept (t, v) hk (ground arith)) d.1,
    )
  ]

  -- In a channel whose pending tags are distinct, an acknowledgement of all tags up to one never
  -- fails; it settles exactly the confirms of the pending tags up to it, in the map's order, and
  -- leaves exactly the tags beyond it.
  pub complete_pending_before_lem :
      (tag : ℕ) (success : Bool) (a : Acknowledgements P E)
      → IsDistinct a.pending
      → let (a', effects, res) = complete_pending_before tag success a in
        (res ≡ ok)
        × (settled effects ≡ confirms (retain (λ e. leb e.0 tag) a.pending))
        × (a'.pending ≡ retain (λ e. not (leb e.0 tag)) a.pending)
  unfolding complete_pending_before
  complete_pending_before_lem tag success a d = drop_each_lem tag success a.pending [] a tt d refl
