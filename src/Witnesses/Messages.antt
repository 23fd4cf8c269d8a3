-- ===== src/Witnesses/Messages.antt =====
-- Contents, confirms, returned messages and ackers at concrete inputs.
use lapin.Base.{ℕ, ◌≡◌, refl, true, false, none, some, List, [], ◌∷◌, arith, map, ℕ_discrete}
use lapin.Base.Dict
use lapin.Acker.{ok, armed, Acker}
use lapin.Acker.Once.{acks, nacks, calls, call, calls_once}
use lapin.Message.{Delivery}
use lapin.Receiver.{consume, will_receive_content}
use lapin.Consumer.{Consumer}
use lapin.Frame.{AmqpClass, AmqpFrame, method, FrameEntry}
use lapin.Frames.{check_poison, empty}
use lapin.Content.{Contents, Outcome}
use lapin.Content.Bodies.{extended, Delivers}
use lapin.Content.Pieces.{with_header}
use lapin.Content.Delivered.{receive_frames, content_delivered}
use lapin.Payload.{chunks, chunk_size, send_method_frame_with_body}
use lapin.Payload.Chunks.{concat, chunks_lem}
use lapin.Returned.{nothing_returned, Waits}
use lapin.Sequence.{IdSequence}
use lapin.Sequence
use lapin.Confirms.{Acknowledgements, on_channel_error, drop_pending, complete_pending_before}
use lapin.Confirms.Settle.{settled, woken, drop_pending_twice, complete_pending_before_lem}
use lapin.Confirms.Failure.{waiter_rejections, reset-on_channel_error}
use lapin.Confirms.Tags.{IsValid}

abbrev acker : Acker ℕ
acker = record {
  channel_id = 1;
  delivery_tag = 4;
  internal_rpc = true;
  error = none;
  killswitch = armed;
  channel_killswitch = armed;
}

calls_once_example :
    (calls (acks false none ∷ nacks false true none ∷ []) acker).2 ≡ ok true ∷ ok false ∷ []
unfolding call
calls_once_example = (calls_once (acks false none) (nacks false true none ∷ []) acker).2

abbrev begun : Delivery ℕ ℕ
begun = record {
  delivery_tag = 4;
  exchange = "";
  routing_key = "hello";
  redelivered = false;
  properties = 0;
  data_bytes = [];
  acker = acker;
}

abbrev consumer : Consumer ℕ ℕ
consumer = record {
  consumer_tag = "tag";
  queue = "hello";
  no_ack = false;
  status = record { state = lapin.ConsumerStatus.active; delegate = none };
  current_message = some begun;
  deliveries = [];
  error = record { held = none };
}

abbrev receiving : Contents ℕ ℕ
receiving = record {
  receiver_state = will_receive_content 60 (consume "tag") ∷ [];
  confirm = false;
  consumers = ("tag", consumer) ∷ [];
  basic_get_delivery = none;
  returned_messages = nothing_returned;
}

abbrev deliver : AmqpClass ℕ
deliver = AmqpClass.other 7

content_delivered_example :
    (sent : List (FrameEntry ℕ)) × (content : List (AmqpFrame ℕ)) × (send_method_frame_with_body 1
        10 60 deliver
        (1 ∷ 2 ∷ 3 ∷ [])
        9
        50
        (empty {E = ℕ})
      ≡ (record empty { low_prio_frames = sent }, []))
    × (map (λ f. f.frame) sent ≡ method 1 deliver ∷ content)
    × Delivers "tag" "tag" []
        (extended (with_header 9 begun) (1 ∷ 2 ∷ 3 ∷ []))
        consumer
        receiving
        ((receive_frames content receiving).0, (receive_frames content receiving).1)
    × ((receive_frames content receiving).2 ≡ map (λ f. Outcome.ok) content)
content_delivered_example =
    content_delivered 1 10 60 deliver (1 ∷ 2 ∷ 3 ∷ []) 9 50 empty "tag" "tag" [] consumer begun
      receiving (unfold check_poison Dict.get in refl) refl
      (unfold Dict.get Dict.String_discrete in refl) refl

chunks_lem_example : concat {A = ℕ} (chunks (chunk_size 10) (1 ∷ 2 ∷ 3 ∷ [])) ≡ 1 ∷ 2 ∷ 3 ∷ []
chunks_lem_example = (chunks_lem 10 (1 ∷ 2 ∷ 3 ∷ [])).0

abbrev nothing_settled : Waits ℕ ℕ
nothing_settled p = none

-- Two publishes wait for their confirms.
abbrev published : Acknowledgements ℕ ℕ
published = record {
  delivery_tag = record { allow_zero = false; max = none; id = 3 };
  last = some 21;
  pending = (1, (10, 20)) ∷ (2, (11, 21)) ∷ [];
  returned = nothing_returned;
}

published-IsValid : IsValid published
unfolding Dict.get ℕ_discrete
published-IsValid = record {
  no_zero = refl;
  no_max = refl;
  fresh = omega arith;
  distinct = (refl, (refl, tt));
}

drop_pending_twice_example : woken (drop_pending 2 true published).1 ≡ 21 ∷ []
unfolding Sequence.current
drop_pending_twice_example =
    (drop_pending_twice 2 true published (11, 21) (unfold Dict.get ℕ_discrete in refl)).2

complete_pending_before_lem_example : settled (complete_pending_before 1 true published).1 ≡ 10 ∷ []
complete_pending_before_lem_example =
    (complete_pending_before_lem 1 true published published-IsValid.distinct).1

reset-on_channel_error_example : waiter_rejections (on_channel_error 9 published).1 ≡ (21, 9) ∷ []
reset-on_channel_error_example =
    (reset-on_channel_error 9 published 2 (11, 21) published-IsValid.distinct
      (unfold Sequence.current in refl) (unfold Dict.get ℕ_discrete in refl)).3

-- A delivery is buffered when the channel fails for good.
abbrev failing : Consumer ℕ ℕ
failing = record consumer { deliveries = ok (some begun) ∷ [] }
