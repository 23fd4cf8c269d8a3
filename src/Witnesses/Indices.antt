-- ===== src/Witnesses/Indices.antt =====
-- The theorems on recovery and on tuning, applied to concrete values.
use lapin.Base.Dict
use lapin.Frame
use lapin.Frame.{
  FrameApi, header_shape, carried_channel, method, heartbeat, AmqpClass, Reply, ExpectedReply,
  rejected, cancel_expected_replies,
}
use lapin.Frames.{push, push_frames, check_poison}
use lapin.Frames.Order.{pending}
use lapin.Frames.Discard.Drop.{on_channel, off_channel, rejections}
use lapin.Returned.{nothing_returned}
use lapin.Confirms
use lapin.Confirms.Settle.{settled}
use lapin.Recovery.{Channel, init_recovery, update_recovery}
use lapin.Recovery.Rejected.{init_recovery-push_frames, update_recovery-finalize_connection}
use lapin.Base.{
  ℕ_discrete, retain, false, ℕ, ◌≡◌, refl, true, none, some, List, [], ◌∷◌, arith, inl,
}
use lapin.Receiver.{consume}
use lapin.Error.{ChannelState, Error, ErrorKind, with_notifier}
use lapin.ChannelStatus.{
  ChannelStatus, Store, Effect, set_will_receive, set_reconnecting, finalize_connection, is_dead,
  notified, set_channel_status, replies_canceled, ChannelRecoveryContext,
}
use lapin.ChannelStatus.Recovery.{Operation, any, run, set_will_receive-killed}
use lapin.ChannelStatus.Waking.{set_reconnecting-finalize_connection}
use lapin.Tuning.{tune_connection_configuration}
use lapin.Tuning.Agreed.{tune_lem}

abbrev lost : Error ℕ
lost = record { kind = ErrorKind.io_error 1; notifier = none }

abbrev opened : ChannelStatus ℕ ℕ
opened = record {
  id = 1;
  confirm = true;
  send_flow = true;
  state = ChannelState.connected;
  receiver_state = [];
  recovery_context = none;
  killswitch = 4;
}

abbrev store : Store
store = record { switches = 5; dead = 3 ∷ []; notifiers = 2 }

abbrev history : List (Operation ℕ ℕ)
history = Operation.header 60 3 ∷ Operation.reconnects lost 9 ∷ Operation.confirms ∷ []

set_will_receive-killed_example :
    is_dead
      (set_will_receive 60 (consume "a") opened).1
      (run history (set_will_receive 60 (consume "a") opened).0 store).1.dead
    ≡ true
unfolding any is_dead
set_will_receive-killed_example = set_will_receive-killed 60 (consume "a") history opened store refl

abbrev fails_again : List (Operation ℕ ℕ)
fails_again = Operation.reconnects lost 9 ∷ Operation.expects (some []) ∷ []

set_reconnecting-finalize_connection_example :
    let (given, s', store') = set_reconnecting lost 7 opened store in
    let (now, now_store) = run fails_again s' store' in
    (given ≡ with_notifier (some 2) lost)
    × ((set_reconnecting lost 8 now now_store).0 ≡ given)
    × (rest : List (Effect ℕ)) × ((finalize_connection now).1
        ≡ set_channel_status now.id now.killswitch ∷ notified 2 ∷ rest)
unfolding any
set_reconnecting-finalize_connection_example =
    set_reconnecting-finalize_connection lost lost 7 8 fails_again opened store refl refl

tune_lem_example :
    tune_connection_configuration 4096 2047 131072 60
      (record { channel_max = 0; frame_max = 0; heartbeat = 30 })
    ≡ record { channel_max = 2047; frame_max = 131072; heartbeat = 30 }
tune_lem_example =
    tune_lem 4096 2047 131072 60 (record { channel_max = 0; frame_max = 0; heartbeat = 30 })
      (omega arith) (inl refl)

abbrev api : FrameApi ℕ
api = record {
  is_header = header_shape;
  channel_id = carried_channel;
  amqp_0_9_1 = 0;
  is_header_lem = λ f. refl;
  channel_id_lem = λ f. refl;
}

abbrev owed : List (ExpectedReply ℕ)
owed = record { reply = Reply.other (Frame.basic_qos_ok 5); canceler = 30 } ∷ []

-- Frames of two channels wait, and channel 1 waits for a reply.
abbrev waiting : Channel ℕ ℕ
waiting = record {
  id = 1;
  status = opened;
  frames = record {
    publish_frames = [];
    retry_frames = [];
    frames =
        record {
          frame = method 1 (AmqpClass.other 5);
          sending = record { canceler = some 30; resolver = none };
        }
        ∷ record {
          frame = method 2 (AmqpClass.other 6);
          sending = record { canceler = some 31; resolver = none };
        }
        ∷ [];
    low_prio_frames = [];
    expected_replies = (1, owed) ∷ [];
    poison = none;
    channels_poison = [];
  };
  acknowledgements = record {
    delivery_tag = record { allow_zero = false; max = none; id = 2 };
    last = none;
    pending = (1, (10, 20)) ∷ [];
    returned = nothing_returned;
  };
}

abbrev asked : ExpectedReply ℕ
asked = record { reply = Reply.other (Frame.basic_qos_ok 5); canceler = 52 }

init_recovery-push_frames_example :
    let (err, ch', store', effects) = init_recovery api lost 7 waiting store in
    (err ≡ with_notifier (some 2) lost)
    × (effects ≡ rejections (retain (on_channel 1) (pending waiting.frames)) err)
    × (pending ch'.frames ≡ retain (off_channel 1) (pending waiting.frames))
    × (push 1 heartbeat 51 (some asked) none ch'.frames
        ≡ (ch'.frames, rejected 52 err ∷ rejected 51 err ∷ []))
    × (push_frames 1 (heartbeat ∷ []) 50 ch'.frames ≡ (ch'.frames, rejected 50 err ∷ []))
unfolding lapin.Frames.cancel_reply Frame.cancel_expected_reply Frame.reject
init_recovery-push_frames_example =
    init_recovery-push_frames api lost 7 waiting store heartbeat 51 (some asked) none
      (heartbeat ∷ []) 50 refl

abbrev context : ChannelRecoveryContext ℕ ℕ
context = record {
  cause = record lost { notifier = some 2 };
  topology = 7;
  expected_replies = none;
  notifier = 2;
}

abbrev recovering : Channel ℕ ℕ
recovering = record waiting { status = record opened { recovery_context = some context } }

update_recovery-finalize_connection_example :
    (ch : Channel ℕ ℕ) × (effects : List (Confirms.Effect ℕ (Error ℕ))) × (update_recovery
        recovering
      ≡ some (ch, effects, 7))
    × (Dict.get ℕ_discrete 1 ch.frames.expected_replies ≡ none)
    × (check_poison 1 ch.frames ≡ none)
    × (settled effects ≡ 10 ∷ [])
    × (ch.acknowledgements.pending ≡ [])
    × ((finalize_connection ch.status).1
        ≡ set_channel_status 1 4
          ∷ notified 2
          ∷ replies_canceled (cancel_expected_replies owed context.cause)
          ∷ [])
unfolding Dict.get ℕ_discrete
update_recovery-finalize_connection_example =
    update_recovery-finalize_connection recovering context owed refl refl
