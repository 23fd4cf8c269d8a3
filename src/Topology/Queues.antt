-- ===== src/Topology/Queues.antt =====
-- src/registry.rs and src/topology.rs: the queues of a registry, and their bindings.
use lapin.Base.{Bool, true, false, none, some, []}
use lapin.Base.Dict
use lapin.Frame.{ShortString}
use lapin.Topology.{QueueDefinition, Registry, register_binding, deregister_binding}

module _ {O A : Type 0} where
  unfoldable pub declared_queue : ShortString → O → A → QueueDefinition O A
  declared_queue name options arguments = record {
    name = name;
    options = some options;
    arguments = some arguments;
    bindings = [];
    is_declared = true;
  }

  unfoldable pub undeclared_queue : ShortString → QueueDefinition O A
  undeclared_queue name = record {
    name = name;
    options = none;
    arguments = none;
    bindings = [];
    is_declared = false;
  }

  unfoldable pub set_declared_queue : O → A → QueueDefinition O A → QueueDefinition O A
  set_declared_queue options arguments d = record d {
    options = some options;
    arguments = some arguments;
    is_declared = true;
  }

  unfoldable pub register_queue : ShortString → O → A → Registry O A → Registry O A
  register_queue name options arguments r = elim (Dict.get Dict.String_discrete name r.queues) [
    | some d ↦ record r {
      queues =
          Dict.insert Dict.String_discrete name (set_declared_queue options arguments d) r.queues;
    }
    | none ↦ record r {
      queues =
          Dict.insert Dict.String_discrete name (declared_queue name options arguments) r.queues;
    }
  ]

  unfoldable pub deregister_queue : ShortString → Registry O A → Registry O A
  deregister_queue name r = record r { queues = Dict.remove Dict.String_discrete name r.queues }

  -- `entry(..).or_insert_with(..)`.
  unfoldable pub bound_queue :
      ShortString → ShortString → A → QueueDefinition O A → QueueDefinition O A
  bound_queue source routing_key arguments d = record d {
    bindings = register_binding source routing_key arguments d.bindings;
  }

  unfoldable pub register_queue_binding :
      ShortString → ShortString → ShortString → A → Registry O A → Registry O A
  register_queue_binding destination source routing_key arguments r =
      let bound = bound_queue source routing_key arguments in
      elim (Dict.get Dict.String_discrete destination r.queues) [
        | some d ↦ record r {
          queues = Dict.insert Dict.String_discrete destination (bound d) r.queues;
        }
        | none ↦ record r {
          queues =
              Dict.insert Dict.String_discrete destination (bound (undeclared_queue destination))
                r.queues;
        }
      ]

  unfoldable pub unbound_queue :
      (A → A → Bool) → ShortString → ShortString → A → QueueDefinition O A → QueueDefinition O A
  unbound_queue same source routing_key arguments d = record d {
    bindings = deregister_binding same source routing_key arguments d.bindings;
  }

  unfoldable pub deregister_queue_binding :
      (A → A → Bool) → ShortString → ShortString → ShortString → A → Registry O A → Registry O A
  deregister_queue_binding same destination source routing_key arguments r =
      elim (Dict.get Dict.String_discrete destination r.queues) [
        | some d ↦ record r {
          queues =
              Dict.insert Dict.String_discrete destination
                (unbound_queue same source routing_key arguments d) r.queues;
        }
        | none ↦ r
      ]
