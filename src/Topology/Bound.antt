-- ===== src/Topology/Bound.antt =====
-- What recovery declares and binds again, as each name's own history.
use lapin.Base.{
  Bool, true, false, ◌≡◌, refl, Option, none, some, List, [], ◌∷◌, ◌++◌, ite, if◌then◌else◌, arith,
  Option-cases, inl, inr,
}
use lapin.Base.Dict
use lapin.Frame.{ShortString}
use lapin.Topology.{
  Registry, BindingDefinition, QueueDefinition, register_binding, deregister_binding,
}
use lapin.Topology.Queues.{
  register_queue, deregister_queue, register_queue_binding, deregister_queue_binding,
  declared_queue, undeclared_queue, set_declared_queue, bound_queue, unbound_queue,
}

-- What a channel does with its queues.
pub data Change (O A : Type 0) : Type 0 where
  declares : ShortString → O → A → Change O A
  deletes : ShortString → Change O A
  binds : ShortString → ShortString → ShortString → A → Change O A
  unbinds : ShortString → ShortString → ShortString → A → Change O A

module _ {A : Type 0} (same : A → A → Bool) where
  -- The bindings of a list that are not the given one, in order.
  abbrev others_of :
      ShortString → ShortString → A → List (BindingDefinition A) → List (BindingDefinition A)
  others_of source routing_key a [] = []
  others_of source routing_key a (b ∷ bs) =
      let rest = others_of source routing_key a bs in
      ite (Dict.String_discrete b.source source)
        (ite (Dict.String_discrete b.routing_key routing_key)
          (if same b.arguments a then rest else b ∷ rest) (b ∷ rest))
        (b ∷ rest)

  deregister_binding-others_of :
      (source routing_key : ShortString) (a : A) (bs : List (BindingDefinition A))
      → deregister_binding same source routing_key a bs ≡ others_of source routing_key a bs
  unfolding deregister_binding
  deregister_binding-others_of source routing_key a [] = refl
  deregister_binding-others_of source routing_key a (b ∷ bs) =
      ground (arith, deregister_binding-others_of source routing_key a bs)

module _ {O A : Type 0} (same : A → A → Bool) where
  unfoldable pub change : Change O A → Registry O A → Registry O A
  change (declares q o a) r = register_queue q o a r
  change (deletes q) r = deregister_queue q r
  change (binds q source routing_key a) r = register_queue_binding q source routing_key a r
  change (unbinds q source routing_key a) r = deregister_queue_binding same q source routing_key a r

  unfoldable pub change_all : List (Change O A) → Registry O A → Registry O A
  change_all [] r = r
  change_all (c ∷ cs) r = change_all cs (change c r)

  abbrev subject : Change O A → ShortString
  subject (declares q o a) = q
  subject (deletes q) = q
  subject (binds q source routing_key a) = q
  subject (unbinds q source routing_key a) = q

  -- What a change makes of its queue's definition, field by field.
  abbrev step : Change O A → Option (QueueDefinition O A) → Option (QueueDefinition O A)
  step (declares q o a) none =
      some (record {
        name = q;
        options = some o;
        arguments = some a;
        bindings = [];
        is_declared = true;
      })
  step (declares q o a) (some d) = some (record {
    name = d.name;
    options = some o;
    arguments = some a;
    bindings = d.bindings;
    is_declared = true;
  })
  step (deletes q) d = none
  step (binds q source routing_key a) none = some (record {
    name = q;
    options = none;
    arguments = none;
    bindings = record { source = source; routing_key = routing_key; arguments = a } ∷ [];
    is_declared = false;
  })
  step (binds q source routing_key a) (some d) = some (record {
    name = d.name;
    options = d.options;
    arguments = d.arguments;
    bindings =
        d.bindings ++ record { source = source; routing_key = routing_key; arguments = a } ∷ [];
    is_declared = d.is_declared;
  })
  step (unbinds q source routing_key a) none = none
  step (unbinds q source routing_key a) (some d) = some (record {
    name = d.name;
    options = d.options;
    arguments = d.arguments;
    bindings = others_of same source routing_key a d.bindings;
    is_declared = d.is_declared;
  })

  -- One queue's own history, which passes over the changes of the others.
  unfoldable pub own :
      Change O A → ShortString → Option (QueueDefinition O A) → Option (QueueDefinition O A)
  own c q d = ite (Dict.String_discrete (subject c) q) (step c d) d

  unfoldable pub own_all :
      List (Change O A) → ShortString → Option (QueueDefinition O A) → Option (QueueDefinition O A)
  own_all [] q d = d
  own_all (c ∷ cs) q d = own_all cs q (own c q d)

  change-own :
      (c : Change O A) (q : ShortString) (r : Registry O A)
      → Dict.get Dict.String_discrete q (change c r).queues
        ≡ own c q (Dict.get Dict.String_discrete q r.queues)
  unfolding change own register_queue deregister_queue register_queue_binding
      deregister_queue_binding declared_queue undeclared_queue set_declared_queue bound_queue
      unbound_queue register_binding
  change-own (declares k o a) q r = elim (Option-cases (Dict.get Dict.String_discrete k r.queues)) [
    | inl e ↦
        ground (arith, e, Dict.get-insert Dict.String_discrete k q (declared_queue k o a) r.queues)
    | inr (d, e) ↦
        ground
          (arith, e, Dict.get-insert Dict.String_discrete k q (set_declared_queue o a d) r.queues)
  ]
  change-own (deletes k) q r = Dict.get-remove Dict.String_discrete k q r.queues
  change-own (binds k source routing_key a) q r =
      elim (Option-cases (Dict.get Dict.String_discrete k r.queues)) [
        | inl e ↦ ground (
          arith,
          e,
          Dict.get-insert Dict.String_discrete k q
              (bound_queue source routing_key a (undeclared_queue k)) r.queues,
        )
        | inr (d, e) ↦ ground (
          arith,
          e,
          Dict.get-insert Dict.String_discrete k q (bound_queue source routing_key a d) r.queues,
        )
      ]
  change-own (unbinds k source routing_key a) q r =
      elim (Option-cases (Dict.get Dict.String_discrete k r.queues)) [
        | inl e ↦ ground (arith, e)
        | inr (d, e) ↦ ground (
          arith,
          e,
          Dict.get-insert Dict.String_discrete k q (unbound_queue same source routing_key a d)
              r.queues,
          deregister_binding-others_of same source routing_key a d.bindings,
        )
      ]

  -- Whatever a channel declares, deletes, binds and unbinds, what its registry holds of a queue is
  -- that queue's own history, in which other queues have no part: a deletion forgets it; a declaration
  -- stores its options and arguments and keeps its bindings; a binding goes behind the others, and of a queue
  -- not held is kept without declaring it; an unbinding takes away every binding equal to it and no other.
  pub change_all-own_all :
      (cs : List (Change O A)) (q : ShortString) (r : Registry O A)
      → Dict.get Dict.String_discrete q (change_all cs r).queues
        ≡ own_all cs q (Dict.get Dict.String_discrete q r.queues)
  unfolding change_all own_all
  change_all-own_all [] q r = refl
  change_all-own_all (c ∷ cs) q r = rw (change_all-own_all cs q (change c r), change-own c q r)
