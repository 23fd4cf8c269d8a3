-- ===== src/Tuning/Agreed.antt =====
-- The values agreed on when a connection is tuned.
use lapin.Base.{ℕ, ◌≤◌, ◌≡◌, ◌⊎◌, inl, inr, min, max, ◌==◌, arith, if◌then◌else◌}
use lapin.Tuning.{
  NegotiatedConfig, channel_id_max, frame_size_max, set_channel_max, set_frame_max, set_heartbeat,
  tune_heartbeat, lower_channel_max, bound_channel_max, lower_frame_max, bound_frame_max,
  tune_connection_configuration,
}

-- The lower of two limits, where 0 is no limit.
abbrev pub lower : ℕ → ℕ → ℕ
lower a b = if a == 0 then b else if b == 0 then a else min a b

abbrev pub at_most : ℕ → ℕ → ℕ
at_most bound n = if n == 0 then bound else n

heartbeat_agreed :
    (heartbeat : ℕ) (c : NegotiatedConfig)
    → tune_heartbeat heartbeat c ≡ record c { heartbeat = lower c.heartbeat heartbeat }
unfolding tune_heartbeat set_heartbeat
heartbeat_agreed heartbeat c = ground arith

channel_max_agreed :
    (channel_max : ℕ) (c : NegotiatedConfig)
    → bound_channel_max (lower_channel_max channel_max c)
      ≡ record c { channel_max = at_most channel_id_max (lower c.channel_max channel_max) }
unfolding bound_channel_max lower_channel_max set_channel_max
channel_max_agreed channel_max c = ground arith

frame_max_agreed :
    (frame_min_size frame_max : ℕ) (c : NegotiatedConfig)
    → frame_min_size ≤ frame_size_max
    → (c.frame_max ≡ 0) ⊎ (frame_min_size ≤ c.frame_max)
    → bound_frame_max frame_min_size (lower_frame_max frame_min_size frame_max c) ≡ record c {
      frame_max = max (at_most frame_size_max (lower c.frame_max frame_max)) frame_min_size;
    }
unfolding bound_frame_max lower_frame_max set_frame_max
frame_max_agreed frame_min_size frame_max c l (inl e) = ground arith
frame_max_agreed frame_min_size frame_max c l (inr e) = ground arith

-- Tuning settles each value to the lower of the client's and the server's, where 0 is no limit and
-- for the heartbeat no wish; no limit on either side is the greatest number of its type. A frame
-- size below the least that the protocol allows is raised to it, where the client's own is not.
pub tune_lem :
    (frame_min_size channel_max frame_max heartbeat : ℕ) (c : NegotiatedConfig)
    → frame_min_size ≤ frame_size_max
    → (c.frame_max ≡ 0) ⊎ (frame_min_size ≤ c.frame_max)
    → tune_connection_configuration frame_min_size channel_max frame_max heartbeat c ≡ record {
      channel_max = at_most channel_id_max (lower c.channel_max channel_max);
      frame_max = max (at_most frame_size_max (lower c.frame_max frame_max)) frame_min_size;
      heartbeat = lower c.heartbeat heartbeat;
    }
unfolding tune_connection_configuration
tune_lem frame_min_size channel_max frame_max heartbeat c l h =
    let c1 = tune_heartbeat heartbeat c in
    let c2 = bound_channel_max (lower_channel_max channel_max c1) in
    ground (
      arith,
      heartbeat_agreed heartbeat c,
      channel_max_agreed channel_max c1,
      frame_max_agreed frame_min_size frame_max c2 l
          (ground (arith, h, heartbeat_agreed heartbeat c, channel_max_agreed channel_max c1)),
    )
