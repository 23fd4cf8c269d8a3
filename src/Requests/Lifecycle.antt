-- ===== src/Requests/Lifecycle.antt =====
-- src/generated/channel.rs: the methods of the classes `channel` and `confirm`, and those of
-- `connection` that open, close and block.
use lapin.Base.{ℕ, String, Bool, true, Option, none, some, [], ◌∷◌, ◌++◌, if◌then◌else◌}
use lapin.Frame.{PromiseId, ShortString, AmqpClass, Reply, other, ExpectedReply, Answer}
use lapin.Frame
use lapin.Acker.{ok, err}
use lapin.Error.{Error}
use lapin.Error
use lapin.ChannelStatus.{
  ChannelStatus, state_is, state_error, can_receive_messages, connected_or_recovering, initializing,
}
use lapin.Channel.{Protocol, Channel, resolved, handle_invalid_contents, assert_channel0}
use lapin.Channel.Lifecycle as Handlers
use lapin.Channel.Handshake as Opening
use lapin.Requests.{
  Handler, Sent, connected, send_method_frame, request, notify, answer_of, guarded, receive,
  completes, acknowledges,
}

abbrev pub always : {P K : Type 0} → ChannelStatus P K → Bool
always s = true

abbrev is_closing : {P K : Type 0} → ChannelStatus P K → Bool
is_closing s = state_is Error.closing s.state

abbrev channel_open_ok : {P K : Type 0} → Answer P → Option (Handler P K)
channel_open_ok (Frame.channel_open_ok resolver channel) =
    some (Handlers.on_channel_open_ok_received resolver)
channel_open_ok _ = none

abbrev channel_flow_ok : {P K : Type 0} → Answer P → Option (Handler P K)
channel_flow_ok (Frame.channel_flow_ok resolver) = some (λ ch. (ch, resolved resolver ∷ [], ok tt))
channel_flow_ok _ = none

abbrev confirm_select_ok : {P K : Type 0} → Answer P → Option (Handler P K)
confirm_select_ok (Frame.confirm_select_ok resolver) =
    some (completes resolver Handlers.on_confirm_select_ok_received)
confirm_select_ok _ = none

abbrev connection_close_ok : {P K : Type 0} → Answer P → Option (Handler P K)
connection_close_ok (Frame.connection_close_ok resolver) =
    some (completes resolver Handlers.on_connection_close_ok_received)
connection_close_ok _ = none

abbrev connection_update_secret_ok : {P K : Type 0} → Answer P → Option (Handler P K)
connection_update_secret_ok (Frame.connection_update_secret_ok resolver) =
    some (acknowledges resolver)
connection_update_secret_ok _ = none

abbrev connection_open_ok : {P K : Type 0} → Answer P → Option (Handler P K)
connection_open_ok (Frame.connection_open_ok resolver connection conn_resolver) =
    some (completes resolver (Opening.on_connection_open_ok_received conn_resolver))
connection_open_ok _ = none

module _ {P K : Type 0} where
  unfoldable pub channel_open : AmqpClass P → P → PromiseId → Channel P P P K → Sent P K
  channel_open m channel promise ch =
      request initializing "channel.open" m (Frame.channel_open_ok promise channel) promise ch

  unfoldable pub receive_channel_open_ok : Protocol K → ℕ → ℕ → Handler P K
  receive_channel_open_ok api class_id method_id =
      receive initializing "channel.open-ok" api class_id method_id (answer_of channel_open_ok)

  unfoldable pub channel_flow : AmqpClass P → PromiseId → Channel P P P K → Sent P K
  channel_flow m promise ch =
      request connected "channel.flow" m (Frame.channel_flow_ok promise) promise ch

  unfoldable pub receive_channel_flow : Bool → Handler P K
  receive_channel_flow active =
      guarded can_receive_messages "channel.flow" (Handlers.on_channel_flow_received active)

  unfoldable pub send_channel_flow_ok : AmqpClass P → PromiseId → Channel P P P K → Sent P K
  send_channel_flow_ok m promise ch =
      notify connected "channel.flow-ok" m (λ sent. (sent, [])) promise ch

  unfoldable pub receive_channel_flow_ok : Protocol K → ℕ → ℕ → Handler P K
  receive_channel_flow_ok api class_id method_id =
      receive can_receive_messages "channel.flow-ok" api class_id method_id
        (answer_of channel_flow_ok)

  unfoldable pub do_channel_close : AmqpClass P → PromiseId → Channel P P P K → Sent P K
  do_channel_close m promise ch =
      if connected ch.status
      then (let reply : ExpectedReply P = record {
        reply = Frame.channel_close_ok promise;
        canceler = promise;
      } in
          let (ch1, effects) = Handlers.before_channel_close ch in
          let (ch2, more) = send_method_frame m promise (some reply) none ch1 in
          (ch2, effects ++ more, ok promise))
      else (ch, [], err (state_error "channel.close" ch.status))

  -- `amqp_error` is the error of the code of the close, if it is one.
  unfoldable pub receive_channel_close : Option K → Handler P K
  receive_channel_close amqp_error =
      guarded can_receive_messages "channel.close" (Handlers.on_channel_close_received amqp_error)

  unfoldable pub send_channel_close_ok :
      AmqpClass P → Option (Error K) → PromiseId → Channel P P P K → Sent P K
  send_channel_close_ok m error promise ch =
      notify is_closing "channel.close-ok" m (Handlers.on_channel_close_ok_sent error) promise ch

  closed_by : Protocol K → ℕ → ℕ → Option (Reply P) → Handler P K
  closed_by api class_id method_id (some (Frame.channel_close_ok resolver)) =
      completes resolver Handlers.on_channel_close_ok_received
  closed_by api class_id method_id _ = handle_invalid_contents api class_id method_id

  -- The requests before the close are given up.
  unfoldable pub receive_channel_close_ok : Protocol K → ℕ → ℕ → Handler P K
  unfolding closed_by
  receive_channel_close_ok api class_id method_id =
      guarded can_receive_messages "channel.close-ok" (λ ch.
        let (reply, ch', effects) = Handlers.next_expected_close_ok_reply ch in
        let (last, more, res) = closed_by api class_id method_id reply ch' in
        (last, effects ++ more, res))

  -- `nowait` is a flag of the method alone: no answer is made up for it.
  unfoldable pub confirm_select : AmqpClass P → PromiseId → Channel P P P K → Sent P K
  confirm_select m promise ch =
      request connected_or_recovering "confirm.select" m (Frame.confirm_select_ok promise) promise
        ch

  unfoldable pub receive_confirm_select_ok : Protocol K → ℕ → ℕ → Handler P K
  receive_confirm_select_ok api class_id method_id =
      receive can_receive_messages "confirm.select-ok" api class_id method_id
        (answer_of confirm_select_ok)

  -- What `assert_channel0` refuses goes no further.
  unfoldable pub on_channel0 : Protocol K → ℕ → ℕ → Handler P K → Handler P K
  on_channel0 api class_id method_id handle ch =
      let (ch', effects, res) = assert_channel0 api class_id method_id ch in
      let (last, more, out) = handle ch' in
      elim res [ ok u ↦ (last, effects ++ more, out) | err e ↦ (ch', effects, err e) ]

  unfoldable pub connection_close : AmqpClass P → PromiseId → Channel P P P K → Sent P K
  connection_close m promise ch =
      request always "connection.close" m (Frame.connection_close_ok promise) promise ch

  unfoldable pub receive_connection_close : Protocol K → ℕ → ℕ → Option K → Handler P K
  receive_connection_close api class_id method_id amqp_error = on_channel0 api class_id method_id (
      guarded can_receive_messages "connection.close"
        (Handlers.on_connection_close_received amqp_error))

  unfoldable pub send_connection_close_ok :
      AmqpClass P → Error K → PromiseId → Channel P P P K → Sent P K
  send_connection_close_ok m e promise ch =
      notify always "connection.close-ok" m
        (λ sent. (sent, Handlers.on_connection_close_ok_sent e sent)) promise ch

  unfoldable pub receive_connection_close_ok : Protocol K → ℕ → ℕ → Handler P K
  receive_connection_close_ok api class_id method_id = on_channel0 api class_id method_id (
      receive can_receive_messages "connection.close-ok" api class_id method_id
        (answer_of connection_close_ok))

  unfoldable pub receive_connection_blocked : Protocol K → ℕ → ℕ → String → Handler P K
  receive_connection_blocked api class_id method_id reason = on_channel0 api class_id method_id (
      guarded can_receive_messages "connection.blocked"
        (Handlers.on_connection_blocked_received reason))

  unfoldable pub receive_connection_unblocked : Protocol K → ℕ → ℕ → Handler P K
  receive_connection_unblocked api class_id method_id = on_channel0 api class_id method_id (
      guarded can_receive_messages "connection.unblocked" Handlers.on_connection_unblocked_received)

  unfoldable pub connection_update_secret : AmqpClass P → PromiseId → Channel P P P K → Sent P K
  connection_update_secret m promise ch =
      request always "connection.update-secret" m (Frame.connection_update_secret_ok promise)
        promise ch

  unfoldable pub receive_connection_update_secret_ok : Protocol K → ℕ → ℕ → Handler P K
  receive_connection_update_secret_ok api class_id method_id = on_channel0 api class_id method_id (
      receive can_receive_messages "connection.update-secret-ok" api class_id method_id
        (answer_of connection_update_secret_ok))

  unfoldable pub receive_connection_open_ok : Protocol K → ℕ → ℕ → Handler P K
  receive_connection_open_ok api class_id method_id = on_channel0 api class_id method_id (
      receive can_receive_messages "connection.open-ok" api class_id method_id
        (answer_of connection_open_ok))
