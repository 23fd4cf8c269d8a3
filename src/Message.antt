-- ===== src/Message.antt =====
-- src/message.rs: a message that is being received, or has been.
use lapin.Base.{ℕ, Bool, false, Option, none, List, [], ◌++◌}
use lapin.Frame.{ChannelId, ShortString}
use lapin.Acker.{KillSwitch, armed, ErrorHolder, Acker, invalidate}

-- `P` is the type of message properties, which the source takes from the crate amq_protocol.
pub record Delivery (P E : Type 0) : Type 0 where
  pub delivery_tag : ℕ
  pub exchange : ShortString
  pub routing_key : ShortString
  pub redelivered : Bool
  pub properties : P
  pub data_bytes : List ℕ
  pub acker : Acker E

module _ {P E : Type 0} where
  -- `BasicProperties::default()` is the argument `default`.
  unfoldable pub new :
      P
      → ChannelId
      → ℕ
      → ShortString
      → ShortString
      → Bool
      → Bool
      → Option (ErrorHolder E)
      → KillSwitch
      → Delivery P E
  new default channel_id delivery_tag exchange routing_key redelivered internal_rpc error switch =
      record {
        delivery_tag = delivery_tag;
        exchange = exchange;
        routing_key = routing_key;
        redelivered = redelivered;
        properties = default;
        data_bytes = [];
        acker = record {
          channel_id = channel_id;
          delivery_tag = delivery_tag;
          internal_rpc = internal_rpc;
          error = error;
          killswitch = armed;
          channel_killswitch = switch;
        };
      }

  unfoldable pub receive_content : List ℕ → Delivery P E → Delivery P E
  receive_content bytes d = record d { data_bytes = d.data_bytes ++ bytes }

-- A message that the broker returns, with the reply code and text of its `basic.return`.
pub record BasicReturnMessage (P E : Type 0) : Type 0 where
  pub delivery : Delivery P E
  pub reply_code : ℕ
  pub reply_text : ShortString

-- A returned message cannot be acknowledged.
unfoldable pub new_return :
    {P E : Type 0}
    → P
    → ShortString
    → ShortString
    → ℕ
    → ShortString
    → KillSwitch
    → BasicReturnMessage P E
unfolding new invalidate
new_return default exchange routing_key reply_code reply_text switch =
    let d = new default 0 0 exchange routing_key false false none switch in
    record {
      delivery = record d { acker = invalidate d.acker };
      reply_code = reply_code;
      reply_text = reply_text;
    }

-- The answer to a `basic.get`, with the number of messages left in the queue.
pub record BasicGetMessage (P E : Type 0) : Type 0 where
  pub delivery : Delivery P E
  pub message_count : ℕ
