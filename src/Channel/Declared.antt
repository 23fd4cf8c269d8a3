-- ===== src/Channel/Declared.antt =====
-- src/channel.rs: what the channel's own registry learns of the broker's answers. `Queue::new`, which
-- the answer of `queue.declare` resolves, carries the three numbers and names of the answer.
use lapin.Base.{Bool, List, [], ◌∷◌}
use lapin.Frame.{PromiseId, ShortString}
use lapin.Acker.{ok}
use lapin.Topology.{Registry}
use lapin.Topology
use lapin.Topology.Queues
use lapin.Channel.{Channel, Effect, resolved, Done}

module _ {P O A K : Type 0} where
  with_registry : Registry O A → List (Effect P K) → Channel P O A K → Done P O A K
  with_registry registry effects ch = (record ch { local_registry = registry }, effects, ok tt)

  unfoldable pub on_exchange_declare_ok_received :
      PromiseId → ShortString → O → O → A → Channel P O A K → Done P O A K
  unfolding with_registry
  on_exchange_declare_ok_received resolver exchange kind options arguments ch =
      with_registry (Topology.register_exchange exchange kind options arguments ch.local_registry)
        (resolved resolver ∷ []) ch

  unfoldable pub on_exchange_delete_ok_received : ShortString → Channel P O A K → Done P O A K
  unfolding with_registry
  on_exchange_delete_ok_received exchange ch =
      with_registry (Topology.deregister_exchange exchange ch.local_registry) [] ch

  unfoldable pub on_exchange_bind_ok_received :
      ShortString → ShortString → ShortString → A → Channel P O A K → Done P O A K
  unfolding with_registry
  on_exchange_bind_ok_received destination source routing_key arguments ch =
      with_registry
        (Topology.register_exchange_binding destination source routing_key arguments
          ch.local_registry)
        [] ch

  unfoldable pub on_queue_declare_ok_received :
      PromiseId → ShortString → O → A → Channel P O A K → Done P O A K
  unfolding with_registry
  on_queue_declare_ok_received resolver queue options arguments ch =
      with_registry (Queues.register_queue queue options arguments ch.local_registry)
        (resolved resolver ∷ []) ch

  unfoldable pub on_queue_delete_ok_received :
      PromiseId → ShortString → Channel P O A K → Done P O A K
  unfolding with_registry
  on_queue_delete_ok_received resolver queue ch =
      with_registry (Queues.deregister_queue queue ch.local_registry) (resolved resolver ∷ []) ch

  unfoldable pub on_queue_purge_ok_received : PromiseId → Channel P O A K → Done P O A K
  on_queue_purge_ok_received resolver ch = (ch, resolved resolver ∷ [], ok tt)

  unfoldable pub on_queue_bind_ok_received :
      ShortString → ShortString → ShortString → A → Channel P O A K → Done P O A K
  unfolding with_registry
  on_queue_bind_ok_received queue exchange routing_key arguments ch =
      with_registry
        (Queues.register_queue_binding queue exchange routing_key arguments ch.local_registry) [] ch

  module _ (same : A → A → Bool) where
    unfoldable pub on_exchange_unbind_ok_received :
        ShortString → ShortString → ShortString → A → Channel P O A K → Done P O A K
    unfolding with_registry
    on_exchange_unbind_ok_received destination source routing_key arguments ch =
        with_registry
          (Topology.deregister_exchange_binding same destination source routing_key arguments
            ch.local_registry)
          [] ch

    unfoldable pub on_queue_unbind_ok_received :
        ShortString → ShortString → ShortString → A → Channel P O A K → Done P O A K
    unfolding with_registry
    on_queue_unbind_ok_received queue exchange routing_key arguments ch =
        with_registry
          (Queues.deregister_queue_binding same queue exchange routing_key arguments
            ch.local_registry)
          [] ch
