-- ===== src/Channels/Routed.antt =====
-- src/channels.rs: a new channel, and where a frame that arrives goes. `receive_method` is the
-- dispatch of src/generated/channel.rs, on the methods of the crate amq_protocol.
use lapin.Base.{ℕ, Option, none, some, [], ◌==◌, ℕ_discrete, if◌then◌else◌}
use lapin.Base.Dict
use lapin.Frame.{ChannelId, AmqpFrame, AmqpClass, ContentHeader}
use lapin.Acker.{Result, ok, err}
use lapin.Error.{Error, from_kind, invalid_protocol_version, channels_limit_reached}
use lapin.ChannelIds.{create_id}
use lapin.Frames.Replies.{connection_resolver}
use lapin.Sequence.{IdSequence}
use lapin.Channel.{
  Protocol, Channel, Effect, Done, report_protocol_violation, handle_content_header_frame,
  handle_body_frame,
}
use lapin.Channel
use lapin.Channels.{Channels, Effects, ask, rejection}

abbrev pub Outcome : Type 0 → Type 0 → Type 0 → Type 0 → Type 0
Outcome P O A K = Channels P O A K × Effects P K × Result (Error K) (Unit {0})

module _ {P O A K : Type 0} where
  module _ (api : Protocol K) (receive_method : AmqpClass P → Channel P O A K → Done P O A K) where
    content_header : ChannelId → ContentHeader P → Channels P O A K → Outcome P O A K
    content_header id h cs =
        if id == 0
        then ask 0 (report_protocol_violation (api.violation Channel.channel_error) h.class_id 0) cs
        else ask id (handle_content_header_frame api h.class_id h.body_size h.properties) cs

    wrong_version : P → K → Channels P O A K → Outcome P O A K
    wrong_version header version cs =
        let (resolver, frames) = connection_resolver 0 cs.frames in
        let e : Error K = from_kind (invalid_protocol_version version) in
        (record cs { frames = frames }, rejection resolver e, err e)

    -- `version_of` is the version that a protocol header names.
    unfoldable pub handle_frame : (P → K) → AmqpFrame P → Channels P O A K → Outcome P O A K
    unfolding content_header wrong_version
    handle_frame version_of (AmqpFrame.protocol_header header) cs =
        wrong_version header (version_of header) cs
    handle_frame version_of (AmqpFrame.method id m) cs = ask id (receive_method m) cs
    handle_frame version_of AmqpFrame.heartbeat cs = (cs, [], ok tt)
    handle_frame version_of (AmqpFrame.invalid_heartbeat id) cs =
        ask 0 (report_protocol_violation (api.violation Channel.frame_error) 0 0) cs
    handle_frame version_of (AmqpFrame.header id h) cs = content_header id h cs
    handle_frame version_of (AmqpFrame.body id payload) cs =
        ask id (handle_body_frame api payload) cs

  created :
      (ChannelId → Channel P O A K)
      → Option ChannelId × IdSequence
      → Channels P O A K
      → Result (Error K) ChannelId × Channels P O A K
  created make (none, sequence) cs =
      (err (from_kind channels_limit_reached), record cs { channel_id = sequence })
  created make (some id, sequence) cs = (
    ok id,
    record cs { channel_id = sequence; channels = Dict.insert ℕ_discrete id (make id) cs.channels },
  )

  -- On fuel for the search of an id: `none` means that the fuel ran out. `make` is `create_channel`.
  unfoldable pub create :
      ℕ
      → (ChannelId → Channel P O A K)
      → Channels P O A K
      → Option (Result (Error K) ChannelId × Channels P O A K)
  unfolding created
  create fuel make cs =
      elim (create_id fuel cs.configuration.channel_max cs.channels cs.channel_id) [
        | none ↦ none
        | some found ↦ some (created make found cs)
      ]
