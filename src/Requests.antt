-- ===== src/Requests.antt =====
-- src/generated/channel.rs, the code that src/channel.rs includes: what its functions have in common.
-- A method to send is built by the crate amq_protocol from the function's arguments, and is given, as is
-- the number of the promise that the function makes; what it then awaits is the promise that it
-- returns. The promise of an answer stands for the resolver and for the canceler.
pub mod Basic
pub mod Exchange
pub mod Queue
pub mod Publish
pub mod Lifecycle
pub mod Handshake
pub mod Received
pub mod Answered
use lapin.Base.{
  ℕ, String, Bool, true, false, Option, none, some, List, [], ◌∷◌, ◌++◌, map, is_some,
  if◌then◌else◌,
}
use lapin.Frame.{PromiseId, AmqpFrame, AmqpClass, Reply, other, ExpectedReply, Answer}
use lapin.Acker.{Result, ok, err}
use lapin.Error.{Error}
use lapin.ChannelStatus.{ChannelStatus, state_error, state_is, can_receive_messages}
use lapin.Error
use lapin.Frames.{push}
use lapin.Frames.Replies.{find_expected_reply}
use lapin.Channel.{
  Protocol, Channel, Effect, of_frames, resolved, rejected, wake, Done, handle_invalid_contents,
}

-- The registry keeps options and arguments as the answers carry them.
abbrev pub Handler : Type 0 → Type 0 → Type 0
Handler P K = Channel P P P K → Done P P P K

-- The synchronous part of a request: an error, or the promise that it awaits.
abbrev pub Sent : Type 0 → Type 0 → Type 0
Sent P K = Channel P P P K × List (Effect P K) × Result (Error K) PromiseId

-- `ChannelStatus::connected`.
abbrev pub connected : {P K : Type 0} → ChannelStatus P K → Bool
connected s = state_is Error.connected s.state

completion : {P K : Type 0} → PromiseId → Result (Error K) (Unit {0}) → Effect P K
completion resolver (ok u) = resolved resolver
completion resolver (err e) = rejected resolver e

module _ {P K : Type 0} where
  -- `send_method_frame` of src/channel.rs.
  unfoldable pub send_method_frame :
      AmqpClass P
      → PromiseId
      → Option (ExpectedReply P)
      → Option PromiseId
      → Channel P P P K
      → Channel P P P K × List (Effect P K)
  send_method_frame m canceler expected_reply resolver ch =
      let (frames, effects) =
        push ch.id (AmqpFrame.method ch.id m) canceler expected_reply resolver ch.frames in
      (record ch { frames = frames }, map of_frames effects ++ wake ∷ [])

  refused : String → Channel P P P K → Sent P K
  refused context ch = (ch, [], err (state_error context ch.status))

  -- A method that waits for its answer.
  unfoldable pub request :
      (ChannelStatus P K → Bool)
      → String
      → AmqpClass P
      → Answer P
      → PromiseId
      → Channel P P P K
      → Sent P K
  unfolding refused
  request ready context m answer promise ch =
      if ready ch.status
      then (let reply : ExpectedReply P = record { reply = other answer; canceler = promise } in
          let (ch', effects) = send_method_frame m promise (some reply) none ch in
          (ch', effects, ok promise))
      else refused context ch

  answered_at_once : Handler P K → Sent P K → Sent P K
  answered_at_once receive (ch, effects, err e) = (ch, effects, err e)
  answered_at_once receive (ch, effects, ok promise) =
      let (ch', more, res) = receive ch in
      (ch', effects ++ more, elim res [ ok u ↦ ok promise | err e ↦ err e ])

  -- A method that the broker may be told not to answer: then the answer is made up on the spot.
  unfoldable pub request_nowait :
      Bool
      → Handler P K
      → (ChannelStatus P K → Bool)
      → String
      → AmqpClass P
      → Answer P
      → PromiseId
      → Channel P P P K
      → Sent P K
  unfolding answered_at_once
  request_nowait nowait receive ready context m answer promise ch =
      let sent = request ready context m answer promise ch in
      if nowait then answered_at_once receive sent else sent

  -- A method that has no answer: its promise is resolved when it is on its way.
  unfoldable pub notify :
      (ChannelStatus P K → Bool)
      → String
      → AmqpClass P
      → (Channel P P P K → Channel P P P K × List (Effect P K))
      → PromiseId
      → Channel P P P K
      → Sent P K
  unfolding refused
  notify ready context m on_sent promise ch =
      if ready ch.status
      then (let (ch1, effects) = send_method_frame m promise none (some promise) ch in
          let (ch2, more) = on_sent ch1 in (ch2, effects ++ more, ok promise))
      else refused context ch

  nothing_done : Channel P P P K → Done P P P K
  nothing_done ch = (ch, [], ok tt)

  -- `resolver.complete(res.clone())`, of what the handler returns.
  unfoldable pub completes : PromiseId → Handler P K → Handler P K
  unfolding completion
  completes resolver handle ch =
      let (ch', effects, res) = handle ch in (ch', effects ++ completion resolver res ∷ [], res)

  -- The reply whose answer is `Ok(())`.
  unfoldable pub acknowledges : PromiseId → Handler P K
  unfolding nothing_done completes
  acknowledges resolver = completes resolver nothing_done

  unfoldable pub answer_of : (Answer P → Option (Handler P K)) → Reply P → Option (Handler P K)
  answer_of handler reply = elim reply [ other answer ↦ handler answer | _ ↦ none ]

  -- `can_receive_messages`, or what else is asked of the status before a method is looked at.
  unfoldable pub guarded : (ChannelStatus P K → Bool) → String → Handler P K → Handler P K
  guarded ready context handle ch =
      if ready ch.status then handle ch else (ch, [], err (state_error context ch.status))

  found : Protocol K → ℕ → ℕ → Option (Handler P K) → Handler P K
  found api class_id method_id none ch = handle_invalid_contents api class_id method_id ch
  found api class_id method_id (some handle) ch = handle ch

  reply_handler : (Reply P → Option (Handler P K)) → Option (Reply P) → Option (Handler P K)
  reply_handler handler none = none
  reply_handler handler (some reply) = handler reply

  -- An answer goes to the oldest request that it may answer; `handler` tells those apart, as the
  -- source's `matches!` and its `match` do.
  unfoldable pub receive :
      (ChannelStatus P K → Bool)
      → String
      → Protocol K
      → ℕ
      → ℕ
      → (Reply P → Option (Handler P K))
      → Handler P K
  unfolding found reply_handler
  receive ready context api class_id method_id handler = guarded ready context (λ ch.
      let (reply, frames) = find_expected_reply ch.id (λ r. is_some (handler r.reply)) ch.frames in
      found api class_id method_id (reply_handler handler reply) (record ch { frames = frames }))
