-- ===== src/Witnesses/Connections.antt =====
-- The theorems on a connection's channels and their requests, applied to concrete values.
use lapin.Base.Dict
use lapin.Base.{
  All, ℕ, ◌≡◌, refl, true, false, none, some, List, [], ◌∷◌, ◌++◌, arith, length, Option,
  ℕ_discrete,
}
use lapin.Frame
use lapin.Frame.{
  AmqpFrame, FrameEntry, Effect, FrameSending, FrameApi, AmqpClass, Reply, ExpectedReply,
  header_shape, carried_channel,
}
use lapin.Frames.{replies_of, check_poison, empty, has_pending}
use lapin.Returned.{nothing_returned}
use lapin.Acker.{armed, killed, ok}
use lapin.Error.{ChannelState, Error, ErrorKind, can_recover, can_be_recovered}
use lapin.ConnectionStatus.{ConnectionState, ConnectionStatus}
use lapin.ChannelStatus.{can_receive_messages}
use lapin.Sequence.{IdSequence}
use lapin.Topology.{Registry, QueueDefinition}
use lapin.Topology
use lapin.Consumer.{Consumer}
use lapin.Consumer
use lapin.Command
use lapin.Channel.{Channel, Protocol, wake, resolved}
use lapin.Channels.{Channels, is_error, set_connection_error}
use lapin.Channels.Ended.{all_failed, set_connection_error_lem}
use lapin.Channels.Recovering.{Topology as Definitions}
use lapin.Channels.Recovering.Poisoned.{Refuses}
use lapin.Rpc.{InternalRpc, Act, sent, waker_wakes, handle}
use lapin.Rpc.Recovered.{handle-Refuses}
use lapin.Requests.{Handler, connected, request, receive, answer_of, acknowledges}
use lapin.Requests.Answered.{waiting, waiting_else, receive-request}
use lapin.Requests.Basic.{qos_ok, consume_ok, do_basic_consume}
use lapin.Requests.Basic.Nowait.{do_basic_consume-waiting}

abbrev ids : IdSequence
ids = record { allow_zero = false; max = some 3; id = 2 }

abbrev pub lost : Error ℕ
lost = record { kind = ErrorKind.io_error 1; notifier = none }

abbrev pub frame_api : FrameApi ℕ
frame_api = record {
  is_header = header_shape;
  channel_id = carried_channel;
  amqp_0_9_1 = 0;
  is_header_lem = λ f. refl;
  channel_id_lem = λ f. refl;
}

abbrev pub protocol : Protocol ℕ
protocol = record { violation = λ v. 501 }

abbrev ready : ConnectionStatus (Error ℕ)
ready = record {
  vhost = "/";
  username = "guest";
  state = ConnectionState.connected;
  blocked = false;
  poison = none;
}

abbrev consumer : Consumer ℕ (Error ℕ)
consumer = Consumer.new "tag" "queue" false

-- Two answers are expected on the channel: one of a consume, one of a qos.
abbrev consuming : ExpectedReply ℕ
consuming = record {
  reply = Reply.other (Frame.basic_consume_ok 20 "first" true 3 none);
  canceler = 20;
}

abbrev limiting : ExpectedReply ℕ
limiting = record { reply = Reply.other (Frame.basic_qos_ok 21); canceler = 21 }

-- An open channel of the number that is given, with a consumer.
abbrev open_channel : ℕ → Channel ℕ ℕ ℕ ℕ
open_channel id = record {
  id = id;
  configuration = record { channel_max = 2047; frame_max = 4096; heartbeat = 60 };
  status = record {
    id = id;
    confirm = true;
    send_flow = true;
    state = ChannelState.connected;
    receiver_state = [];
    recovery_context = none;
    killswitch = id;
  };
  connection_status = ready;
  local_registry = Topology.empty;
  acknowledgements = record {
    delivery_tag = record { allow_zero = false; max = none; id = 3 };
    last = none;
    pending = (2, (7, 8)) ∷ [];
    returned = nothing_returned;
  };
  consumers = ("tag", consumer) ∷ [];
  basic_get_delivery = none;
  frames = record empty { expected_replies = (1, consuming ∷ limiting ∷ []) ∷ [] };
  recovery_config = true;
}

abbrev pub connection : Channels ℕ ℕ ℕ ℕ
connection = record {
  channels = (1, open_channel 1) ∷ (2, open_channel 2) ∷ [];
  channel0 = open_channel 0;
  channel_id = ids;
  configuration = record { channel_max = 2047; frame_max = 4096; heartbeat = 60 };
  connection_status = ready;
  frames = record empty { expected_replies = (0, limiting ∷ []) ∷ [] };
  connection_killswitch = armed;
  recovery_config = true;
  store = record { switches = 3; dead = []; notifiers = 0 };
}

set_connection_error_lem_example :
    let cs' = (set_connection_error lost connection).0 in
    (is_error cs'.connection_status.state ≡ true)
    × (has_pending cs'.frames ≡ false)
    × (cs'.frames.expected_replies ≡ [])
    × (all_failed cs'.channels ≡ true)
    × (set_connection_error lost cs' ≡ (cs', []))
set_connection_error_lem_example = set_connection_error_lem lost lost connection refl

abbrev task : InternalRpc ℕ ℕ ℕ ℕ
task = record {
  channels = connection;
  channels_status = (1, 1) ∷ (2, 2) ∷ [];
  heartbeat = record {
    last_read = 0;
    last_write = 0;
    timeout = none;
    poison = armed;
    killswitch = armed;
  };
  secret_update = armed;
}

abbrev packed : Definitions ℕ ℕ ℕ ℕ → ℕ
packed definitions = length definitions.0

handle-Refuses_example :
    (rpc1 : InternalRpc ℕ ℕ ℕ ℕ) × (rpc2 : InternalRpc ℕ ℕ ℕ ℕ) × (acts : List (Act ℕ ℕ)) × (handle
        frame_api packed open_channel 2 5 6
        (Command.set_connection_error lost)
        task
      ≡ some (rpc1, sent (Command.init_connection_recovery lost) ∷ waker_wakes ∷ []))
    × (killed rpc1.channels.connection_killswitch ≡ true)
    × (handle frame_api packed open_channel 2 5 6 (Command.init_connection_recovery lost) rpc1
        ≡ some (rpc2, acts))
    × (Dict.keys rpc2.channels.channels ≡ 1 ∷ 2 ∷ [])
    × All
        (λ e. Refuses AmqpFrame.heartbeat 30 none (some 31) [] 32 rpc2.channels.frames e.1)
        rpc2.channels.channels
    × Refuses AmqpFrame.heartbeat 30 none
        (some 31)
        []
        32
        rpc2.channels.frames
        rpc2.channels.channel0
unfolding Dict.get ℕ_discrete can_recover can_be_recovered
handle-Refuses_example =
    handle-Refuses frame_api packed open_channel 2 5 6 lost task AmqpFrame.heartbeat 30 none
      (some 31) [] 32 refl refl (unfold replies_of in omega arith)

abbrev one : Channel ℕ ℕ ℕ ℕ
one = open_channel 1

abbrev qos : Reply ℕ → Option (Handler ℕ ℕ)
qos = answer_of qos_ok

abbrev new_qos : ExpectedReply ℕ
new_qos = record { reply = Reply.other (Frame.basic_qos_ok 22); canceler = 22 }

receive-request_example :
    let (asked, effects, res) =
      request connected "basic.qos" (AmqpClass.other 9) (Frame.basic_qos_ok 22) 22 one in
    (effects ≡ wake ∷ [])
    × (res ≡ ok 22)
    × (r : ExpectedReply ℕ) × (ws : List (ExpectedReply ℕ)) × (h : Handler ℕ ℕ) × (ch' : Channel ℕ ℕ
        ℕ ℕ)
    × (waiting qos one ++ new_qos ∷ [] ≡ r ∷ ws)
    × (qos r.reply ≡ some h)
    × (receive can_receive_messages "basic.qos-ok" protocol 60 11 qos asked ≡ h ch')
    × (waiting qos ch' ≡ ws)
    × (waiting_else qos ch' ≡ waiting_else qos one)
unfolding check_poison answer_of can_receive_messages
receive-request_example =
    receive-request qos connected can_receive_messages "basic.qos" "basic.qos-ok" protocol 60 11
      (AmqpClass.other 9) (Frame.basic_qos_ok 22) 22 one (acknowledges 22) refl refl refl refl

abbrev no_consumer : ℕ → Consumer ℕ (Error ℕ)
no_consumer stored = consumer

abbrev consumes : Reply ℕ → Option (Handler ℕ ℕ)
consumes = answer_of (consume_ok no_consumer "second_tag")

abbrev new_consume : ExpectedReply ℕ
new_consume = record {
  reply = Reply.other (Frame.basic_consume_ok 23 "second" false 4 none);
  canceler = 23;
}

do_basic_consume-waiting_example :
    let (ch', effects, res) =
      do_basic_consume no_consumer protocol 60 21
        (AmqpClass.other 9)
        "second"
        "second_tag"
        false
        true
        4
        none
        23
        one in
    (effects ≡ wake ∷ resolved 20 ∷ [])
    × (res ≡ ok 23)
    × (Dict.get Dict.String_discrete "second_tag" ch'.consumers
        ≡ some (Consumer.new "second_tag" "first" true))
    × (waiting consumes ch' ≡ new_consume ∷ [])
unfolding check_poison answer_of waiting Dict.get ℕ_discrete
do_basic_consume-waiting_example =
    do_basic_consume-waiting no_consumer protocol 60 21 (AmqpClass.other 9) "second" "second_tag"
      false 4 23 one 20 20 "first" true 3 [] refl refl refl
