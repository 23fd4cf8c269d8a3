-- ===== src/Requests/Basic/Nowait.antt =====
-- A `basic.consume` that is told not to wait, behind one that waits.
use lapin.Base.{ℕ, Bool, true, ◌≡◌, none, some, List, [], ◌∷◌, ◌++◌, arith}
use lapin.Base.Dict
use lapin.Frame.{PromiseId, ShortString, AmqpClass, other, ExpectedReply, Answer}
use lapin.Frame
use lapin.Acker.{ok}
use lapin.Error.{Error}
use lapin.Error
use lapin.ChannelStatus.{can_receive_messages}
use lapin.Consumer.{Consumer}
use lapin.Consumer
use lapin.Consumers.{register}
use lapin.Frames.{check_poison}
use lapin.Channel.{Protocol, Channel, resolved, wake}
use lapin.Channel.Basic.{on_basic_consume_ok_received}
use lapin.Requests.{connected, request_nowait, answer_of, answered_at_once}
use lapin.Requests.Answered.{waiting, receive-request}
use lapin.Requests.Basic.{consume_ok, do_basic_consume, receive_basic_consume_ok}

module _ {P K : Type 0} where
  -- On a channel where a consume waits for its answer, a consume that is not to be answered completes
  -- the one that waits: its promise is resolved, its queue is what the new tag's consumer is
  -- registered for, and the promise of the new consume, which the call awaits, waits behind.
  pub do_basic_consume-waiting :
      (consumer_of : P → Consumer P (Error K)) (api : Protocol K) (class_id method_id : ℕ)
      (m : AmqpClass P) (queue tag : ShortString) (no_ack : Bool) (arguments : P)
      (promise : PromiseId) (ch : Channel P P P K) (canceler first : PromiseId)
      (first_queue : ShortString) (first_no_ack : Bool) (first_arguments : P)
      (ws : List (ExpectedReply P))
      → ch.status.state ≡ Error.connected
      → check_poison ch.id ch.frames ≡ none
      → waiting (answer_of (consume_ok consumer_of tag)) ch
        ≡ record {
          reply =
              other (Frame.basic_consume_ok first first_queue first_no_ack first_arguments none);
          canceler = canceler;
        }
          ∷ ws
      → let new : ExpectedReply P = record {
        reply = other (Frame.basic_consume_ok promise queue no_ack arguments none);
        canceler = promise;
      } in
        let (ch', effects, res) =
          do_basic_consume consumer_of api class_id method_id m queue tag no_ack true arguments none
            promise ch in
        (effects ≡ wake ∷ resolved first ∷ [])
        × (res ≡ ok promise)
        × (Dict.get Dict.String_discrete tag ch'.consumers
            ≡ some (Consumer.new tag first_queue first_no_ack))
        × (waiting (answer_of (consume_ok consumer_of tag)) ch' ≡ ws ++ new ∷ [])
  unfolding do_basic_consume request_nowait answered_at_once on_basic_consume_ok_received register
      answer_of receive_basic_consume_ok waiting can_receive_messages
  do_basic_consume-waiting consumer_of api class_id method_id m queue tag no_ack arguments promise
        ch canceler first first_queue first_no_ack first_arguments ws c n w =
      let (quiet, out, r, rest, h, ch', o, f, run, left, others) =
        receive-request (answer_of (consume_ok consumer_of tag)) connected can_receive_messages
          "basic.consume" "basic.consume-ok" api class_id method_id m
          (Frame.basic_consume_ok promise queue no_ack arguments none) promise ch
          (on_basic_consume_ok_received tag promise queue no_ack none) (ground (arith, c))
          (ground (arith, c)) n (ground arith) in
      let oldest : ExpectedReply P = record {
        reply = other (Frame.basic_consume_ok first first_queue first_no_ack first_arguments none);
        canceler = canceler;
      } in
      let new : ExpectedReply P = record {
        reply = other (Frame.basic_consume_ok promise queue no_ack arguments none);
        canceler = promise;
      } in
      let is_oldest : r ≡ oldest = ground (arith, o, w) in
      let is_rest : rest ≡ ws ++ new ∷ [] = ground (arith, o, w) in
      let completes_oldest : h
          ≡ on_basic_consume_ok_received tag first first_queue first_no_ack none =
        ground (arith, f, is_oldest) in
      let set =
        Dict.get-insert Dict.String_discrete tag tag (Consumer.new tag first_queue first_no_ack)
          ch'.consumers in
      (
        ground (arith, quiet, out, run, completes_oldest),
        ground (arith, quiet, out, run, completes_oldest),
        ground (arith, quiet, out, run, completes_oldest, set),
        ground (arith, quiet, out, run, completes_oldest, left, is_rest),
      )
