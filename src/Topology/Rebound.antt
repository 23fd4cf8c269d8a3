-- ===== src/Topology/Rebound.antt =====
-- src/channel.rs, `start_recovery`: the bindings of a queue, made again, and their answers.
use lapin.Base.{◌≡◌, ◌∙◌, some, List, [], ◌∷◌, ◌++◌, arith, append_assoc, append-nil}
use lapin.Base.Dict
use lapin.Frame.{ShortString}
use lapin.Topology.Queues.{register_queue_binding, bound_queue}
use lapin.Topology.{BindingDefinition, Registry, QueueDefinition, register_binding}

module _ {O A : Type 0} where
  -- The loop over the bindings of a queue of the stored topology. Each `queue_bind` is awaited, and
  -- its answer, `on_queue_bind_ok_received`, registers the binding.
  unfoldable pub rebind : ShortString → List (BindingDefinition A) → Registry O A → Registry O A
  rebind queue [] r = r
  rebind queue (b ∷ bs) r =
      rebind queue bs (register_queue_binding queue b.source b.routing_key b.arguments r)

  rebind_lem :
      (queue : ShortString) (bs : List (BindingDefinition A)) (d : QueueDefinition O A)
      (r : Registry O A)
      → Dict.get Dict.String_discrete queue r.queues ≡ some d
      → Dict.get Dict.String_discrete queue (rebind queue bs r).queues
        ≡ some (record d { bindings = d.bindings ++ bs })
  unfolding rebind register_queue_binding bound_queue register_binding
  rebind_lem queue [] d r e = ground (arith, e, append-nil d.bindings)
  rebind_lem queue (b ∷ bs) d r e =
      let d' = bound_queue b.source b.routing_key b.arguments d in
      let r' = register_queue_binding queue b.source b.routing_key b.arguments r in
      let set = Dict.get-insert Dict.String_discrete queue queue d' r.queues in
      rebind_lem queue bs d' r' (ground (arith, e, set))
      ∙ ground (arith, append_assoc d.bindings (b ∷ []) bs)

  -- A recovery binds a queue again by the topology that was stored when the connection was lost, which
  -- is that of the registry; after it the registry holds each binding of the queue twice.
  pub rebind_twice :
      (queue : ShortString) (d : QueueDefinition O A) (r : Registry O A)
      → Dict.get Dict.String_discrete queue r.queues ≡ some d
      → Dict.get Dict.String_discrete queue (rebind queue d.bindings r).queues
        ≡ some (record d { bindings = d.bindings ++ d.bindings })
  rebind_twice queue d r e = rebind_lem queue d.bindings d r e
