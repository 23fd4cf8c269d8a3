-- ===== src/Requests/Received.antt =====
-- src/generated/channel.rs, `receive_method`: what becomes of each method that the server sends.
use lapin.Base.{ℕ, String, Bool, Option}
use lapin.Frame.{ShortString}
use lapin.Acker.{Result, KillSwitch}
use lapin.Error.{Error}
use lapin.ChannelStatus.{SwitchId}
use lapin.Consumer.{Consumer}
use lapin.Channel.{Protocol, handle_invalid_contents}
use lapin.Channel.Basic.{Envelope}
use lapin.Requests.{Handler}
use lapin.Requests.Basic.{
  receive_basic_qos_ok, receive_basic_consume_ok, receive_basic_cancel, receive_basic_cancel_ok,
  receive_basic_return, receive_basic_deliver, receive_basic_get_ok, receive_basic_get_empty,
  receive_basic_ack, receive_basic_recover_ok, receive_basic_nack,
}
use lapin.Requests.Exchange.{
  receive_access_request_ok, receive_exchange_declare_ok, receive_exchange_delete_ok,
  receive_exchange_bind_ok, receive_exchange_unbind_ok, receive_tx_select_ok, receive_tx_commit_ok,
  receive_tx_rollback_ok,
}
use lapin.Requests.Queue.{
  receive_queue_declare_ok, receive_queue_bind_ok, receive_queue_purge_ok, receive_queue_delete_ok,
  receive_queue_unbind_ok,
}
use lapin.Requests.Lifecycle.{
  receive_connection_open_ok, receive_connection_close, receive_connection_close_ok,
  receive_connection_blocked, receive_connection_unblocked, receive_connection_update_secret_ok,
  receive_channel_open_ok, receive_channel_flow, receive_channel_flow_ok, receive_channel_close,
  receive_channel_close_ok, receive_confirm_select_ok,
}
use lapin.Requests.Handshake.{
  receive_connection_start, receive_connection_secure, receive_connection_tune,
}

-- The methods of the crate amq_protocol, with the fields that are looked at; a close has the error of
-- its code, and the methods of authentication what the authenticator answers. `unexpected` are the
-- methods that only a server receives.
pub data Method (K : Type 0) : Type 0 where
  basic_qos_ok basic_get_empty basic_recover_ok : Method K
  basic_consume_ok basic_cancel_ok : ShortString → Method K
  basic_cancel : ShortString → Bool → Method K
  basic_return : ShortString → ShortString → ℕ → ShortString → Method K
  basic_deliver : ShortString → Envelope → Method K
  basic_get_ok : Envelope → ℕ → Method K
  basic_ack basic_nack : ℕ → Bool → Method K
  connection_start connection_secure : Result String (Unit {0}) → Method K
  connection_tune : ℕ → ℕ → ℕ → Method K
  connection_open_ok connection_close_ok connection_unblocked connection_update_secret_ok : Method K
  connection_close channel_close : Option K → Method K
  connection_blocked : String → Method K
  channel_open_ok channel_flow_ok channel_close_ok access_request_ok : Method K
  channel_flow : Bool → Method K
  exchange_declare_ok exchange_delete_ok exchange_bind_ok exchange_unbind_ok : Method K
  queue_declare_ok : ShortString → Method K
  queue_bind_ok queue_purge_ok queue_delete_ok queue_unbind_ok : Method K
  tx_select_ok tx_commit_ok tx_rollback_ok confirm_select_ok unexpected : Method K

-- What the crate amq_protocol and the program give: the default properties, the minimal size of a
-- frame, the class and the number of each method, the equality of argument tables; and the objects
-- behind a kill switch and a stored consumer.
pub record Context (P K : Type 0) : Type 0 where
  pub api : Protocol K
  pub default : P
  pub frame_min_size : ℕ
  pub class_id : Method K → ℕ
  pub method_id : Method K → ℕ
  pub same : P → P → Bool
  pub switch_of : SwitchId → KillSwitch
  pub consumer_of : P → Consumer P (Error K)

module _ {P K : Type 0} (x : Context P K) where
  unfoldable pub receive_method : Method K → Handler P K
  receive_method basic_qos_ok =
      receive_basic_qos_ok x.api (x.class_id basic_qos_ok) (x.method_id basic_qos_ok)
  receive_method (basic_consume_ok tag) =
      receive_basic_consume_ok x.consumer_of x.api (x.class_id (basic_consume_ok tag))
        (x.method_id (basic_consume_ok tag)) tag
  receive_method (basic_cancel tag nowait) = receive_basic_cancel tag nowait
  receive_method (basic_cancel_ok tag) =
      receive_basic_cancel_ok x.api (x.class_id (basic_cancel_ok tag))
        (x.method_id (basic_cancel_ok tag)) tag
  receive_method (basic_return exchange routing_key reply_code reply_text) =
      receive_basic_return x.default x.switch_of
        (x.class_id (basic_return exchange routing_key reply_code reply_text)) exchange routing_key
        reply_code reply_text
  receive_method (basic_deliver tag e) =
      receive_basic_deliver x.default x.switch_of (x.class_id (basic_deliver tag e)) tag e
  receive_method (basic_get_ok e message_count) =
      receive_basic_get_ok x.default x.switch_of x.api (x.class_id (basic_get_ok e message_count))
        (x.method_id (basic_get_ok e message_count)) e message_count
  receive_method basic_get_empty =
      receive_basic_get_empty x.api (x.class_id basic_get_empty) (x.method_id basic_get_empty)
  receive_method (basic_ack tag multiple) =
      receive_basic_ack x.api (x.class_id (basic_ack tag multiple))
        (x.method_id (basic_ack tag multiple)) tag multiple
  receive_method basic_recover_ok =
      receive_basic_recover_ok x.api (x.class_id basic_recover_ok) (x.method_id basic_recover_ok)
  receive_method (basic_nack tag multiple) =
      receive_basic_nack x.api (x.class_id (basic_nack tag multiple))
        (x.method_id (basic_nack tag multiple)) tag multiple
  receive_method (connection_start auth_starter) =
      receive_connection_start x.api (x.class_id (connection_start auth_starter))
        (x.method_id (connection_start auth_starter)) auth_starter
  receive_method (connection_secure continue_auth) =
      receive_connection_secure x.api (x.class_id (connection_secure continue_auth))
        (x.method_id (connection_secure continue_auth)) continue_auth
  receive_method (connection_tune channel_max frame_max heartbeat) =
      receive_connection_tune x.frame_min_size x.api
        (x.class_id (connection_tune channel_max frame_max heartbeat))
        (x.method_id (connection_tune channel_max frame_max heartbeat)) channel_max frame_max
        heartbeat
  receive_method connection_open_ok =
      receive_connection_open_ok x.api (x.class_id connection_open_ok)
        (x.method_id connection_open_ok)
  receive_method (connection_close amqp_error) =
      receive_connection_close x.api (x.class_id (connection_close amqp_error))
        (x.method_id (connection_close amqp_error)) amqp_error
  receive_method connection_close_ok =
      receive_connection_close_ok x.api (x.class_id connection_close_ok)
        (x.method_id connection_close_ok)
  receive_method (connection_blocked reason) =
      receive_connection_blocked x.api (x.class_id (connection_blocked reason))
        (x.method_id (connection_blocked reason)) reason
  receive_method connection_unblocked =
      receive_connection_unblocked x.api (x.class_id connection_unblocked)
        (x.method_id connection_unblocked)
  receive_method connection_update_secret_ok =
      receive_connection_update_secret_ok x.api (x.class_id connection_update_secret_ok)
        (x.method_id connection_update_secret_ok)
  receive_method channel_open_ok =
      receive_channel_open_ok x.api (x.class_id channel_open_ok) (x.method_id channel_open_ok)
  receive_method (channel_flow active) = receive_channel_flow active
  receive_method channel_flow_ok =
      receive_channel_flow_ok x.api (x.class_id channel_flow_ok) (x.method_id channel_flow_ok)
  receive_method (channel_close amqp_error) = receive_channel_close amqp_error
  receive_method channel_close_ok =
      receive_channel_close_ok x.api (x.class_id channel_close_ok) (x.method_id channel_close_ok)
  receive_method access_request_ok =
      receive_access_request_ok x.api (x.class_id access_request_ok) (x.method_id access_request_ok)
  receive_method exchange_declare_ok =
      receive_exchange_declare_ok x.api (x.class_id exchange_declare_ok)
        (x.method_id exchange_declare_ok)
  receive_method exchange_delete_ok =
      receive_exchange_delete_ok x.api (x.class_id exchange_delete_ok)
        (x.method_id exchange_delete_ok)
  receive_method exchange_bind_ok =
      receive_exchange_bind_ok x.api (x.class_id exchange_bind_ok) (x.method_id exchange_bind_ok)
  receive_method exchange_unbind_ok =
      receive_exchange_unbind_ok x.same x.api (x.class_id exchange_unbind_ok)
        (x.method_id exchange_unbind_ok)
  receive_method (queue_declare_ok queue) =
      receive_queue_declare_ok queue x.api (x.class_id (queue_declare_ok queue))
        (x.method_id (queue_declare_ok queue))
  receive_method queue_bind_ok =
      receive_queue_bind_ok x.api (x.class_id queue_bind_ok) (x.method_id queue_bind_ok)
  receive_method queue_purge_ok =
      receive_queue_purge_ok x.api (x.class_id queue_purge_ok) (x.method_id queue_purge_ok)
  receive_method queue_delete_ok =
      receive_queue_delete_ok x.api (x.class_id queue_delete_ok) (x.method_id queue_delete_ok)
  receive_method queue_unbind_ok =
      receive_queue_unbind_ok x.same x.api (x.class_id queue_unbind_ok)
        (x.method_id queue_unbind_ok)
  receive_method tx_select_ok =
      receive_tx_select_ok x.api (x.class_id tx_select_ok) (x.method_id tx_select_ok)
  receive_method tx_commit_ok =
      receive_tx_commit_ok x.api (x.class_id tx_commit_ok) (x.method_id tx_commit_ok)
  receive_method tx_rollback_ok =
      receive_tx_rollback_ok x.api (x.class_id tx_rollback_ok) (x.method_id tx_rollback_ok)
  receive_method confirm_select_ok =
      receive_confirm_select_ok x.api (x.class_id confirm_select_ok) (x.method_id confirm_select_ok)
  receive_method unexpected =
      handle_invalid_contents x.api (x.class_id unexpected) (x.method_id unexpected)
