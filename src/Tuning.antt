-- ===== src/Tuning.antt =====
-- src/configuration.rs and `tune_connection_configuration` of src/channel.rs: what client and
-- server agree on when a connection is tuned. The lock is taken for each access alone, but nothing
-- else writes while a connection is tuned, so the function is one step.
pub mod Agreed
use lapin.Base.{
  ℕ, ◌-◌, ◌^◌, max, Bool, true, false, not, ◌&&◌, ◌||◌, ltb, ◌==◌, Option, none, some,
  if◌then◌else◌,
}

-- `ChannelId` and `Heartbeat` have 16 bits, `FrameSize` 32.
abbrev pub channel_id_max : ℕ
channel_id_max = 2 ^ 16 - 1

abbrev pub frame_size_max : ℕ
frame_size_max = 2 ^ 32 - 1

pub record NegotiatedConfig : Type 0 where
  pub channel_max : ℕ
  pub frame_max : ℕ
  pub heartbeat : ℕ

or_default : Option ℕ → ℕ
or_default none = 0
or_default (some n) = n

-- From the query of the URI.
unfoldable pub new : Option ℕ → Option ℕ → Option ℕ → NegotiatedConfig
unfolding or_default
new frame_max channel_max heartbeat = record {
  channel_max = or_default channel_max;
  frame_max = or_default frame_max;
  heartbeat = or_default heartbeat;
}

unfoldable pub set_channel_max : ℕ → NegotiatedConfig → NegotiatedConfig
set_channel_max channel_max c = record c { channel_max = channel_max }

-- `FRAME_MIN_SIZE` is a constant of the crate amq_protocol.
unfoldable pub set_frame_max : ℕ → ℕ → NegotiatedConfig → NegotiatedConfig
set_frame_max frame_min_size frame_max c = record c { frame_max = max frame_max frame_min_size }

unfoldable pub set_heartbeat : ℕ → NegotiatedConfig → NegotiatedConfig
set_heartbeat heartbeat c = record c { heartbeat = heartbeat }

-- The three parts of `tune_connection_configuration`, in its order.
unfoldable pub tune_heartbeat : ℕ → NegotiatedConfig → NegotiatedConfig
tune_heartbeat heartbeat c =
    if (c.heartbeat == 0) || (not (heartbeat == 0) && ltb heartbeat c.heartbeat)
    then set_heartbeat heartbeat c
    else c

unfoldable pub lower_channel_max : ℕ → NegotiatedConfig → NegotiatedConfig
lower_channel_max channel_max c =
    if not (channel_max == 0) && ((c.channel_max == 0) || ltb channel_max c.channel_max)
    then set_channel_max channel_max c
    else c

unfoldable pub bound_channel_max : NegotiatedConfig → NegotiatedConfig
bound_channel_max c = if c.channel_max == 0 then set_channel_max channel_id_max c else c

unfoldable pub lower_frame_max : ℕ → ℕ → NegotiatedConfig → NegotiatedConfig
lower_frame_max frame_min_size frame_max c =
    if not (frame_max == 0) && ((c.frame_max == 0) || ltb frame_max c.frame_max)
    then set_frame_max frame_min_size frame_max c
    else c

unfoldable pub bound_frame_max : ℕ → NegotiatedConfig → NegotiatedConfig
bound_frame_max frame_min_size c =
    if c.frame_max == 0 then set_frame_max frame_min_size frame_size_max c else c

unfoldable pub tune_connection_configuration : ℕ → ℕ → ℕ → ℕ → NegotiatedConfig → NegotiatedConfig
unfolding tune_heartbeat lower_channel_max bound_channel_max lower_frame_max bound_frame_max
tune_connection_configuration frame_min_size channel_max frame_max heartbeat c =
    bound_frame_max frame_min_size (
      lower_frame_max frame_min_size frame_max
        (bound_channel_max (lower_channel_max channel_max (tune_heartbeat heartbeat c))))
