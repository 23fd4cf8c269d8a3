-- ===== src/Channel.antt =====
-- src/channel.rs: a channel as a whole, and how it ends. The parts of its state are those of the
-- other files; `returned_messages`, which the confirms share, is in the acknowledgements here.
-- The messages of AMQP errors are left out: `violation` gives the error of each kind.
pub mod Basic
pub mod Acks
pub mod Lifecycle
pub mod Declared
pub mod Handshake
use lapin.Base.{
  ℕ, String, Bool, true, false, Option, none, some, List, [], ◌∷◌, ◌++◌, map, ◌==◌, if◌then◌else◌,
}
use lapin.Frame.{ChannelId, PromiseId, ShortString}
use lapin.Frame
use lapin.Acker.{Result, ok, err}
use lapin.Error.{Error, ChannelState, from_kind, invalid_channel_state, protocol_error, can_recover}
use lapin.ChannelStatus.{ChannelStatus, set_state}
use lapin.ChannelStatus
use lapin.ConnectionStatus.{ConnectionStatus}
use lapin.Confirms.{Acknowledgements, on_channel_error}
use lapin.Confirms
use lapin.Consumer
use lapin.Consumers.{Consumers}
use lapin.Consumers
use lapin.Content.{Contents}
use lapin.Content
use lapin.BasicGet.{InnerData}
use lapin.Frames.{Frames}
use lapin.Tuning.{NegotiatedConfig}
use lapin.Topology.{Registry}
use lapin.Command.{Command, remove_channel, set_connection_error, Event, closes_connection}

pub data Violation : Type 0 where
  frame_error unexpected_frame channel_error command_invalid precondition_failed : Violation

-- What is used of the AMQP errors of the crate amq_protocol.
pub record Protocol (K : Type 0) : Type 0 where
  pub violation : Violation → K

pub record Channel (P O A K : Type 0) : Type 0 where
  pub id : ChannelId
  pub configuration : NegotiatedConfig
  pub status : ChannelStatus P K
  pub connection_status : ConnectionStatus (Error K)
  pub local_registry : Registry O A
  pub acknowledgements : Acknowledgements P (Error K)
  pub consumers : Consumers P (Error K)
  pub basic_get_delivery : Option (InnerData P (Error K))
  pub frames : Frames P (Error K)
  pub recovery_config : Bool

-- What a channel does outside, in order.
pub data Effect (P K : Type 0) : Type 0 where
  of_frames : Frame.Effect (Error K) → Effect P K
  of_status : ChannelStatus.Effect K → Effect P K
  of_confirms : Confirms.Effect P (Error K) → Effect P K
  of_consumers : Consumer.Effect P (Error K) → Effect P K
  of_contents : Content.Effect P (Error K) → Effect P K
  rpc : Command K → Effect P K
  event : Event K → Effect P K
  resolved : PromiseId → Effect P K
  rejected : PromiseId → Error K → Effect P K
  wake : Effect P K

-- A handler's result: the channel, what is done outside, and what it returns.
abbrev pub Done : Type 0 → Type 0 → Type 0 → Type 0 → Type 0
Done P O A K = Channel P O A K × List (Effect P K) × Result (Error K) (Unit {0})

module _ {P O A K : Type 0} where
  unfoldable pub error_publisher_confirms :
      Error K → Channel P O A K → Channel P O A K × List (Effect P K)
  error_publisher_confirms e ch =
      let (acknowledgements, effects) = on_channel_error e ch.acknowledgements in
      (record ch { acknowledgements = acknowledgements }, map of_confirms effects)

  -- The consumers leave the map; they live on in the hands of the program.
  unfoldable pub cancel_consumers : Channel P O A K → Channel P O A K × List (Effect P K)
  cancel_consumers ch =
      let (drained, effects) = Consumers.cancel ch.consumers in
      (record ch { consumers = [] }, map of_consumers effects)

  unfoldable pub error_consumers : Error K → Channel P O A K → Channel P O A K × List (Effect P K)
  error_consumers e ch =
      let (drained, effects) = Consumers.error e (can_recover ch.recovery_config e) ch.consumers in
      (record ch { consumers = [] }, map of_consumers effects)

  unfoldable pub in_state : ChannelState → Channel P O A K → Channel P O A K
  in_state state ch = record ch { status = set_state state ch.status }

  unfoldable pub set_closing :
      Option (Error K) → Channel P O A K → Channel P O A K × List (Effect P K)
  set_closing none ch =
      let ch' = in_state ChannelState.closing ch in
      (record ch' { consumers = Consumers.start_cancel ch.consumers }, [])
  set_closing (some e) ch =
      let (ch1, effects) = error_publisher_confirms e (in_state ChannelState.closing ch) in
      let (ch2, more) = error_consumers e ch1 in (ch2, effects ++ more)

  unfoldable pub set_closed : Error K → Channel P O A K → Channel P O A K × List (Effect P K)
  set_closed e ch =
      let (ch1, effects) = error_publisher_confirms e (in_state ChannelState.closed ch) in
      let (ch2, more) = cancel_consumers ch1 in
      (ch2, effects ++ (more ++ rpc (remove_channel ch.id e) ∷ []))

  unfoldable pub set_connection_error_here :
      Error K → Channel P O A K → Channel P O A K × List (Effect P K)
  set_connection_error_here e ch =
      let (ch1, effects) = error_publisher_confirms e (in_state ChannelState.error ch) in
      let (ch2, more) = error_consumers e ch1 in
      (ch2, effects ++ (more ++ rpc (remove_channel ch.id e) ∷ []))

  -- The connection is closed for it, and what the handler returns is the error.
  unfoldable pub report_protocol_violation : K → ℕ → ℕ → Channel P O A K → Done P O A K
  report_protocol_violation e class_id method_id ch =
      let error : Error K = from_kind (protocol_error e) in
      (
        ch,
        map rpc (closes_connection e class_id method_id) ++ rpc (set_connection_error error) ∷ [],
        err error,
      )

  unfoldable pub handle_invalid_contents : Protocol K → ℕ → ℕ → Channel P O A K → Done P O A K
  handle_invalid_contents api class_id method_id ch =
      report_protocol_violation (api.violation unexpected_frame) class_id method_id ch

  unfoldable pub assert_channel0 : Protocol K → ℕ → ℕ → Channel P O A K → Done P O A K
  assert_channel0 api class_id method_id ch = if ch.id == 0 then (ch, [], ok tt) else (
    ch,
    map rpc (closes_connection (api.violation command_invalid) class_id method_id),
    err (from_kind (protocol_error (api.violation command_invalid))),
  )

  -- The part of the state that contents go to.
  unfoldable pub contents : Channel P O A K → Contents P (Error K)
  contents ch = record {
    receiver_state = ch.status.receiver_state;
    confirm = ch.status.confirm;
    consumers = ch.consumers;
    basic_get_delivery = ch.basic_get_delivery;
    returned_messages = ch.acknowledgements.returned;
  }

  unfoldable pub with_contents : Contents P (Error K) → Channel P O A K → Channel P O A K
  with_contents c ch = record ch {
    status = record ch.status { receiver_state = c.receiver_state };
    consumers = c.consumers;
    basic_get_delivery = c.basic_get_delivery;
    acknowledgements = record ch.acknowledgements { returned = c.returned_messages };
  }

  -- A header of the wrong class is a frame error, and anything out of turn an unexpected frame.
  judge : Protocol K → Content.Outcome → ℕ → Channel P O A K → Done P O A K
  judge api Content.ok class_id ch = (ch, [], ok tt)
  judge api Content.frame_error class_id ch =
      report_protocol_violation (api.violation frame_error) class_id 0 ch
  judge api Content.unexpected_frame class_id ch = handle_invalid_contents api class_id 0 ch

  judged :
      Protocol K
      → ℕ
      → Contents P (Error K) × List (Content.Effect P (Error K)) × Content.Outcome
      → Channel P O A K
      → Done P O A K
  judged api class_id (c, effects, outcome) ch =
      let (ch', more, res) = judge api outcome class_id (with_contents c ch) in
      (ch', map of_contents effects ++ more, res)

  unfoldable pub handle_content_header_frame :
      Protocol K → ℕ → ℕ → P → Channel P O A K → Done P O A K
  unfolding judge judged
  handle_content_header_frame api class_id size properties ch =
      judged api class_id
        (Content.handle_content_header_frame class_id size properties (contents ch)) ch

  unfoldable pub handle_body_frame : Protocol K → List ℕ → Channel P O A K → Done P O A K
  unfolding judge judged
  handle_body_frame api payload ch =
      judged api 0 (Content.handle_body_frame payload (contents ch)) ch
