-- ===== src/Witnesses/Records.antt =====
-- The theorems on the socket, the registry and the channel ids, applied to concrete values.
use lapin.Base.Dict
use lapin.Base.{
  is_some, if◌then◌else◌, ℕ, ◌+◌, ◌≡◌, refl, true, false, none, some, List, [], ◌∷◌, ◌++◌, arith,
  ◌==◌, ◌⊎◌, ◌≤◌, length, Option,
}
use lapin.Frame.{
  AmqpFrame, FrameEntry, FrameSending, FrameApi, AmqpClass, header_shape, carried_channel,
}
use lapin.Frames.{empty}
use lapin.Sequence.{IdSequence}
use lapin.Sequence.Cycle.{IsBounded}
use lapin.ChannelIds.{create_id, contains}
use lapin.ChannelIds.Free.{create_id_lem}
use lapin.Topology.{Registry, QueueDefinition}
use lapin.Topology
use lapin.Topology.Rebound.{rebind, rebind_twice}
use lapin.Buffer.{Buffer, with_capacity}
use lapin.IoLoop.Serialize.{Generated, fits, too_small, Sending, serialize}
use lapin.IoLoop.Serialize.Kept.{on_way, serialize_lem}
use lapin.Topology.Bound.{Change, change_all, own_all, change_all-own_all}
use lapin.IoLoop.{Serialized}
use lapin.IoLoop.Written.{account_writes, whole, left, account_writes-whole}

abbrev frame_api : FrameApi ℕ
frame_api = record {
  is_header = header_shape;
  channel_id = carried_channel;
  amqp_0_9_1 = 0;
  is_header_lem = λ f. refl;
  channel_id_lem = λ f. refl;
}

abbrev promised : ℕ → FrameSending
promised p = record { canceler = none; resolver = some p }

abbrev queued : List Serialized
queued = (10, promised 1) ∷ (4, promised 2) ∷ (7, promised 3) ∷ []

account_writes-whole_example :
    ((account_writes {E = ℕ} (6 ∷ 9 ∷ []) queued).1 ≡ whole 15 queued)
    × (left (account_writes {E = ℕ} (6 ∷ 9 ∷ []) queued).0 + 15 ≡ 21)
account_writes-whole_example =
    account_writes-whole (6 ∷ 9 ∷ []) queued (omega arith, (omega arith, (omega arith, tt)))
      (omega arith, (omega arith, tt)) (omega arith)

abbrev changes : List (Change ℕ ℕ)
changes =
    Change.binds "q" "logs" "k" 1
    ∷ Change.declares "q" 5 6
    ∷ Change.deletes "r"
    ∷ Change.unbinds "q" "logs" "k" 1
    ∷ []

change_all-own_all_example :
    Dict.get Dict.String_discrete "q" (change_all (λ a b. a == b) changes Topology.empty).queues
    ≡ own_all (λ a b. a == b) changes "q" none
unfolding own_all Dict.get
change_all-own_all_example = change_all-own_all (λ a b. a == b) changes "q" Topology.empty

abbrev ids : IdSequence
ids = record { allow_zero = false; max = some 3; id = 2 }

abbrev taken : List (ℕ × ℕ)
taken = (2, 20) ∷ (3, 30) ∷ []

create_id_lem_example :
    (result : Option ℕ) × (s' : IdSequence) × (create_id 4 3 taken ids ≡ some (result, s'))
    × IsBounded 3 s'
    × (((j : ℕ) × (result ≡ some j) × (1 ≤ j) × (j ≤ 3) × (contains j taken ≡ false))
        ⊎ ((result ≡ none) × ((3 ≤ length taken) ⊎ (contains 1 taken ≡ true))))
create_id_lem_example =
    create_id_lem 4 3 1 taken ids (omega arith) (omega arith) refl (omega arith) (omega arith)
      (omega arith) (omega arith)

-- The second frame does not fit.
abbrev two_methods : Sending ℕ ℕ
two_methods = record {
  frames = record empty {
    frames =
        record { frame = AmqpFrame.method 1 (AmqpClass.other 9); sending = promised 31 }
        ∷ record { frame = AmqpFrame.heartbeat; sending = promised 32 }
        ∷ [];
  };
  send_buffer = with_capacity 16;
  serialized_frames = (3, promised 30) ∷ [];
}

abbrev generated : FrameEntry ℕ → Buffer → Generated ℕ
generated f b = elim f.frame [ AmqpFrame.heartbeat ↦ too_small b | _ ↦ fits b 12 ]

serialize_lem_example :
    (s' : Sending ℕ ℕ) × (failed : Option ℕ) × (lost : List FrameSending) × (serialize frame_api
        generated true 3 two_methods
      ≡ some (s', failed))
    × (on_way lost s' ≡ promised 30 ∷ promised 31 ∷ promised 32 ∷ [])
    × (length lost ≡ (if is_some failed then 1 else 0))
serialize_lem_example = serialize_lem frame_api generated true 3 two_methods (omega arith) refl

abbrev bound : QueueDefinition ℕ ℕ
bound = record {
  name = "q";
  options = some 1;
  arguments = some 2;
  bindings = record { source = "logs"; routing_key = "k"; arguments = 3 } ∷ [];
  is_declared = true;
}

rebind_twice_example :
    Dict.get Dict.String_discrete "q"
      (rebind "q" bound.bindings (record { exchanges = []; queues = ("q", bound) ∷ [] })).queues
    ≡ some (record bound { bindings = bound.bindings ++ bound.bindings })
unfolding Dict.get Dict.String_discrete
rebind_twice_example =
    rebind_twice "q" bound (record { exchanges = []; queues = ("q", bound) ∷ [] }) refl
