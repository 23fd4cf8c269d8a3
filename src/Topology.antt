-- ===== src/Topology.antt =====
-- src/registry.rs and src/topology.rs: what a channel has declared and bound, to do it again on
-- recovery. `O` is the type of kinds and
-- options, which are only stored, `A` that of argument tables with their equality, which
-- is the library amq_protocol's. The order of a map's values is the list's here.
pub mod Bound
pub mod Rebound
pub mod Queues
use lapin.Base.{
  ℕ, String, Bool, true, false, not, ◌&&◌, ◌||◌, Option, none, some, List, [], ◌∷◌, ◌++◌, retain,
  if◌then◌else◌,
}
use lapin.Base.Dict
use lapin.Frame.{ShortString}

pub record BindingDefinition (A : Type 0) : Type 0 where
  pub source : ShortString
  pub routing_key : ShortString
  pub arguments : A

-- Of an exchange or a queue: `kind` is `none` for a queue, which has no kind.
pub record ExchangeDefinition (O A : Type 0) : Type 0 where
  pub name : ShortString
  pub kind : Option O
  pub options : Option O
  pub arguments : Option A
  pub bindings : List (BindingDefinition A)
  pub is_declared : Bool

pub record QueueDefinition (O A : Type 0) : Type 0 where
  pub name : ShortString
  pub options : Option O
  pub arguments : Option A
  pub bindings : List (BindingDefinition A)
  pub is_declared : Bool

-- `Inner`.
pub record Registry (O A : Type 0) : Type 0 where
  pub exchanges : List (ShortString × ExchangeDefinition O A)
  pub queues : List (ShortString × QueueDefinition O A)

-- `==` of strings.
abbrev pub same_string : ShortString → ShortString → Bool
same_string a b = elim (Dict.String_discrete a b) [ Dec.yes e ↦ true | Dec.no n ↦ false ]

-- `retain` of the bindings that differ.
unfoldable pub deregister_binding :
    {A : Type 0}
    → (A → A → Bool)
    → ShortString
    → ShortString
    → A
    → List (BindingDefinition A)
    → List (BindingDefinition A)
deregister_binding same source routing_key arguments bindings =
    retain
      (λ b.
        not (same_string b.source source)
        || (not (same_string b.routing_key routing_key) || not (same b.arguments arguments)))
      bindings

unfoldable pub register_binding :
    {A : Type 0}
    → ShortString
    → ShortString
    → A
    → List (BindingDefinition A)
    → List (BindingDefinition A)
register_binding source routing_key arguments bindings =
    bindings ++ record { source = source; routing_key = routing_key; arguments = arguments } ∷ []

module _ {O A : Type 0} where
  abbrev pub empty : Registry O A
  empty = record { exchanges = []; queues = [] }

  unfoldable pub declared_exchange : ShortString → O → O → A → ExchangeDefinition O A
  declared_exchange name kind options arguments = record {
    name = name;
    kind = some kind;
    options = some options;
    arguments = some arguments;
    bindings = [];
    is_declared = true;
  }

  unfoldable pub undeclared_exchange : ShortString → ExchangeDefinition O A
  undeclared_exchange name = record {
    name = name;
    kind = none;
    options = none;
    arguments = none;
    bindings = [];
    is_declared = false;
  }

  unfoldable pub set_declared_exchange : O → O → A → ExchangeDefinition O A → ExchangeDefinition O A
  set_declared_exchange kind options arguments d = record d {
    kind = some kind;
    options = some options;
    arguments = some arguments;
    is_declared = true;
  }

  unfoldable pub register_exchange : ShortString → O → O → A → Registry O A → Registry O A
  register_exchange name kind options arguments r =
      elim (Dict.get Dict.String_discrete name r.exchanges) [
        | some d ↦ record r {
          exchanges =
              Dict.insert Dict.String_discrete name (set_declared_exchange kind options arguments d)
                r.exchanges;
        }
        | none ↦ record r {
          exchanges =
              Dict.insert Dict.String_discrete name (declared_exchange name kind options arguments)
                r.exchanges;
        }
      ]

  unfoldable pub deregister_exchange : ShortString → Registry O A → Registry O A
  deregister_exchange name r = record r {
    exchanges = Dict.remove Dict.String_discrete name r.exchanges;
  }

  -- `entry(..).or_insert_with(..)`.
  unfoldable pub bound_exchange :
      ShortString → ShortString → A → ExchangeDefinition O A → ExchangeDefinition O A
  bound_exchange source routing_key arguments d = record d {
    bindings = register_binding source routing_key arguments d.bindings;
  }

  unfoldable pub register_exchange_binding :
      ShortString → ShortString → ShortString → A → Registry O A → Registry O A
  register_exchange_binding destination source routing_key arguments r =
      let bound = bound_exchange source routing_key arguments in
      elim (Dict.get Dict.String_discrete destination r.exchanges) [
        | some d ↦ record r {
          exchanges = Dict.insert Dict.String_discrete destination (bound d) r.exchanges;
        }
        | none ↦ record r {
          exchanges =
              Dict.insert Dict.String_discrete destination (bound (undeclared_exchange destination))
                r.exchanges;
        }
      ]

  unfoldable pub unbound_exchange :
      (A → A → Bool)
      → ShortString
      → ShortString
      → A
      → ExchangeDefinition O A
      → ExchangeDefinition O A
  unbound_exchange same source routing_key arguments d = record d {
    bindings = deregister_binding same source routing_key arguments d.bindings;
  }

  unfoldable pub deregister_exchange_binding :
      (A → A → Bool) → ShortString → ShortString → ShortString → A → Registry O A → Registry O A
  deregister_exchange_binding same destination source routing_key arguments r =
      elim (Dict.get Dict.String_discrete destination r.exchanges) [
        | some d ↦ record r {
          exchanges =
              Dict.insert Dict.String_discrete destination
                (unbound_exchange same source routing_key arguments d) r.exchanges;
        }
        | none ↦ r
      ]

  unfoldable pub exchanges_topology : Registry O A → List (ExchangeDefinition O A)
  exchanges_topology r = Dict.values r.exchanges

  unfoldable pub queues_topology : Registry O A → List (QueueDefinition O A)
  queues_topology r = Dict.values r.queues
