-- ===== src/Consumer/Delegate.antt =====
-- What a delegate sees that is set while deliveries come in.
use lapin.Base.{
  ap, ◌≡◌, refl, none, some, List, [], ◌∷◌, ◌++◌, map, true, arith, append-nil, append_assoc,
}
use lapin.ConsumerStatus.{DelegateId, is_active}
use lapin.ConsumerStatus
use lapin.Consumer.{
  Consumer, Effect, on_new_delivery, DeliveryResult, dispatch, set_delegate, delegate_all,
}

map_append : {A B : Type 0} (f : A → B) (xs ys : List A) → map f (xs ++ ys) ≡ map f xs ++ map f ys
map_append f [] ys = refl
map_append f (x ∷ xs) ys = ap (λ zs. f x ∷ zs) (map_append f xs ys)

module _ {P E : Type 0} where
  unfoldable pub dispatch_all :
      List (DeliveryResult P E) → Consumer P E → Consumer P E × List (Effect P E)
  dispatch_all [] c = (c, [])
  dispatch_all (d ∷ ds) c =
      let (c', effects) = dispatch d c.status.delegate c in
      let (last, more) = dispatch_all ds c' in (last, effects ++ more)

  dispatch_all_queued :
      (ds : List (DeliveryResult P E)) (c : Consumer P E)
      → c.status.delegate ≡ none
      → dispatch_all ds c ≡ (record c { deliveries = c.deliveries ++ ds }, [])
  unfolding dispatch_all dispatch
  dispatch_all_queued [] c h = ground (arith, append-nil c.deliveries)
  dispatch_all_queued (d ∷ ds) c h = ground (
    arith,
    h,
    append_assoc c.deliveries (d ∷ []) ds,
    dispatch_all_queued ds (record c { deliveries = c.deliveries ++ d ∷ [] }) h,
  )

  dispatch_all_delegated :
      (delegate : DelegateId) (ds : List (DeliveryResult P E)) (c : Consumer P E)
      → c.status.delegate ≡ some delegate
      → dispatch_all ds c ≡ (c, map (on_new_delivery delegate) ds)
  unfolding dispatch_all dispatch
  dispatch_all_delegated delegate [] c h = refl
  dispatch_all_delegated delegate (d ∷ ds) c h =
      ground (arith, h, dispatch_all_delegated delegate ds c h)

  delegate_all-map :
      (delegate : DelegateId) (ds : List (DeliveryResult P E))
      → delegate_all delegate ds ≡ map (on_new_delivery delegate) ds
  unfolding delegate_all
  delegate_all-map delegate [] = refl
  delegate_all-map delegate (d ∷ ds) = ground (arith, delegate_all-map delegate ds)

  -- A delegate that is set on an active consumer without one gets every delivery, in order: those
  -- buffered, those dispatched before it was set, and those dispatched after; none stays behind.
  pub set_delegate-dispatch_all :
      (delegate : DelegateId) (before after : List (DeliveryResult P E)) (c : Consumer P E)
      → c.status.delegate ≡ none
      → is_active c.status.state ≡ true
      → let (c1, effects1) = dispatch_all before c in
        let (c2, effects2) = set_delegate delegate c1 in
        let (c3, effects3) = dispatch_all after c2 in
        (effects1 ++ (effects2 ++ effects3)
          ≡ map (on_new_delivery delegate) (c.deliveries ++ (before ++ after)))
        × (c3.deliveries ≡ [])
  unfolding set_delegate ConsumerStatus.set_delegate
  set_delegate-dispatch_all delegate before after c n a =
      let c1 = record c { deliveries = c.deliveries ++ before } in
      let c2 = (set_delegate delegate c1).0 in
      let queued = dispatch_all_queued before c n in
      let given = dispatch_all_delegated delegate after c2 (ground (arith, n, a)) in
      (
        rw (
          queued,
          given,
          delegate_all-map delegate (c.deliveries ++ before),
          ← map_append (on_new_delivery delegate) (c.deliveries ++ before) after,
          append_assoc c.deliveries before after,
        ),
        rw (queued, given),
      )
