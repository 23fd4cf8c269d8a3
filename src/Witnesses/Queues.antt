-- ===== src/Witnesses/Queues.antt =====
-- Frames, expected replies and poisons at concrete inputs.
use lapin.Base.{ℕ, ◌++◌, ◌≡◌, refl, true, false, none, some, List, [], ◌∷◌, arith, ℕ_discrete}
use lapin.Base.Dict
use lapin.Frame
use lapin.Frame.{
  into_connection_resolver, AmqpFrame, AmqpClass, FrameApi, FrameEntry, FrameSending, Reply,
  ConnectionStep, ExpectedReply, header_shape, carried_channel, rejected,
}
use lapin.Frames.{Frames, empty, check_poison, pop, push, has_pending}
use lapin.Frames.Order.{Took, pop-pending}
use lapin.Frames.Publish.{Action, pushes, pops, run, publish_contiguous}
use lapin.Frames.Replies.{clear_connection_steps}
use lapin.Frames.Replies.Steps.{clear_connection_steps_lem}
use lapin.Frames.Discard.{drop_pending}
use lapin.Frames.Discard.Poison.{drop_pending-push}

abbrev frame_api : FrameApi ℕ
frame_api = record {
  is_header = header_shape;
  channel_id = carried_channel;
  amqp_0_9_1 = 91;
  is_header_lem = λ f. refl;
  channel_id_lem = λ f. refl;
}

abbrev unpromised : FrameSending
unpromised = record { canceler = none; resolver = none }

abbrev publish : FrameEntry ℕ
publish = record { frame = AmqpFrame.method 1 (AmqpClass.other 40); sending = unpromised }

abbrev content_header : FrameEntry ℕ
content_header = record {
  frame = AmqpFrame.header 1 (record { class_id = 60; body_size = 2; properties = 0 });
  sending = unpromised;
}

abbrev content_body : FrameEntry ℕ
content_body = record {
  frame = AmqpFrame.body 1 (7 ∷ 8 ∷ []);
  sending = record { canceler = none; resolver = some 5 };
}

abbrev next_publish : FrameEntry ℕ
next_publish = record { frame = AmqpFrame.method 2 (AmqpClass.other 40); sending = unpromised }

-- A publish on channel 1 and the beginning of one on channel 2 wait.
abbrev publishing : Frames ℕ ℕ
publishing = record (empty {P = ℕ} {E = ℕ}) {
  low_prio_frames = publish ∷ content_header ∷ content_body ∷ next_publish ∷ [];
}

pop-pending_example : Took true publishing (pop frame_api true publishing)
pop-pending_example = pop-pending frame_api true publishing

-- A method is pushed between the frames of the publish, and is popped behind them.
abbrev interleaved : List (Action ℕ)
interleaved =
    pushes 3 (AmqpFrame.method 3 (AmqpClass.other 10)) 9 none none ∷ pops false ∷ pops false ∷ []

publish_contiguous_example :
    (pop frame_api true publishing).0 ≡ some publish
    × ((run frame_api interleaved (pop frame_api true publishing).1).0
          ++ (run frame_api interleaved (pop frame_api true publishing).1).1.publish_frames
        ≡ content_header ∷ content_body ∷ [])
unfolding run pop push check_poison
publish_contiguous_example =
    publish_contiguous frame_api publish content_header (content_body ∷ []) (next_publish ∷ [])
      interleaved publishing refl refl refl refl refl (refl, tt) refl (omega arith)

interleaved_pops :
    (run frame_api interleaved (pop frame_api true publishing).1).0
    ≡ content_header ∷ content_body ∷ []
unfolding run pop push check_poison
interleaved_pops = refl

drop_pending-push_example : has_pending (drop_pending 3 publishing).0 ≡ false
drop_pending-push_example = (drop_pending-push 3 1 AmqpFrame.heartbeat 8 none (some 9) publishing).0

-- Channel 0 waits for two steps of the handshake and for another reply.
abbrev step_reply : ExpectedReply ℕ
step_reply = record {
  reply = Reply.connection_step (ConnectionStep.protocol_header 1 0);
  canceler = 1;
}

abbrev other_reply : ExpectedReply ℕ
other_reply = record { reply = Reply.other (Frame.basic_qos_ok 50); canceler = 2 }

abbrev start_reply : ExpectedReply ℕ
start_reply = record { reply = Reply.connection_step (ConnectionStep.start_ok 3 0 0); canceler = 3 }

abbrev connecting : Frames ℕ ℕ
connecting = record (empty {P = ℕ} {E = ℕ}) {
  expected_replies = (0, step_reply ∷ other_reply ∷ start_reply ∷ []) ∷ [];
}

clear_connection_steps_lem_example :
    (t : Frames ℕ ℕ) × (clear_connection_steps 4 7 connecting
      ≡ some (t, rejected 1 7 ∷ rejected 3 7 ∷ []))
    × (Dict.get ℕ_discrete 0 t.expected_replies ≡ some (other_reply ∷ []))
    × (t ≡ record connecting { expected_replies = t.expected_replies })
unfolding into_connection_resolver
clear_connection_steps_lem_example =
    clear_connection_steps_lem 4 7 connecting (step_reply ∷ other_reply ∷ start_reply ∷ [])
      (unfold Dict.get ℕ_discrete in refl) (omega arith)
