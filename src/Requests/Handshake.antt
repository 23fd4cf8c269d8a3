-- ===== src/Requests/Handshake.antt =====
-- src/generated/channel.rs: the methods of the class `connection` by which a connection opens.
use lapin.Base.{ℕ, String, Option, none, some, []}
use lapin.Frame.{PromiseId, AmqpClass, ConnectionStep, ExpectedReply}
use lapin.Frame
use lapin.Acker.{Result, ok}
use lapin.ChannelStatus.{can_receive_messages}
use lapin.Frames.Replies.{find_connection_step}
use lapin.Channel.{Protocol, Channel}
use lapin.Channel.Handshake as Handlers
use lapin.Requests.{Handler, Sent, send_method_frame, request, notify, guarded}
use lapin.Requests.Lifecycle.{always, on_channel0}

module _ {P K : Type 0} where
  -- A step that the connection waits at; its promise stands for the canceler.
  unfoldable pub step : AmqpClass P → ConnectionStep P → PromiseId → Channel P P P K → Sent P K
  step m awaited promise ch =
      let reply : ExpectedReply P = record {
        reply = Frame.connection_step awaited;
        canceler = promise;
      } in
      let (ch', effects) = send_method_frame m promise (some reply) none ch in
      (ch', effects, ok promise)

  unfoldable pub send_connection_start_ok :
      AmqpClass P → PromiseId → P → P → PromiseId → Channel P P P K → Sent P K
  send_connection_start_ok m conn_resolver connection auth promise ch =
      step m (ConnectionStep.start_ok conn_resolver connection auth) promise ch

  unfoldable pub send_connection_secure_ok :
      AmqpClass P → PromiseId → P → P → PromiseId → Channel P P P K → Sent P K
  send_connection_secure_ok m conn_resolver connection auth promise ch =
      step m (ConnectionStep.secure_ok conn_resolver connection auth) promise ch

  unfoldable pub connection_tune_ok : AmqpClass P → PromiseId → Channel P P P K → Sent P K
  connection_tune_ok m promise ch =
      notify always "connection.tune-ok" m (λ sent. (sent, [])) promise ch

  unfoldable pub connection_open :
      AmqpClass P → P → PromiseId → PromiseId → Channel P P P K → Sent P K
  connection_open m connection conn_resolver promise ch =
      request always "connection.open" m (Frame.connection_open_ok promise connection conn_resolver)
        promise ch

  at_step : (ConnectionStep P → Handler P K) → Option (ConnectionStep P) → Handler P K
  at_step handle none ch = Handlers.connection_process_error ch.connection_status.state none none ch
  at_step handle (some awaited) ch = handle awaited ch

  -- The step that the connection waits at is taken, whichever it is.
  unfoldable pub receive_step :
      String → Protocol K → ℕ → ℕ → (ConnectionStep P → Handler P K) → Handler P K
  unfolding at_step
  receive_step context api class_id method_id handle = on_channel0 api class_id method_id (
      guarded can_receive_messages context (λ ch.
        let (awaited, frames) = find_connection_step ch.id ch.frames in
        at_step handle awaited (record ch { frames = frames })))

  unfoldable pub receive_connection_start :
      Protocol K → ℕ → ℕ → Result String (Unit {0}) → Handler P K
  receive_connection_start api class_id method_id auth_starter =
      receive_step "connection.start" api class_id method_id
        (Handlers.on_connection_start_received auth_starter)

  unfoldable pub receive_connection_secure :
      Protocol K → ℕ → ℕ → Result String (Unit {0}) → Handler P K
  receive_connection_secure api class_id method_id continue_auth =
      receive_step "connection.secure" api class_id method_id
        (Handlers.on_connection_secure_received continue_auth)

  unfoldable pub receive_connection_tune : ℕ → Protocol K → ℕ → ℕ → ℕ → ℕ → ℕ → Handler P K
  receive_connection_tune frame_min_size api class_id method_id channel_max frame_max heartbeat =
      receive_step "connection.tune" api class_id method_id
        (Handlers.on_connection_tune_received frame_min_size channel_max frame_max heartbeat)
