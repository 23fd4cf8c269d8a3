-- ===== src/Frames/Discard.antt =====
-- src/frames.rs: dropping the pending frames of a connection or of a channel, and poisoning.
pub mod Poison
pub mod Drop
use lapin.Base.{
  ℕ, Bool, true, false, not, Option, none, some, List, [], ◌∷◌, ◌++◌, ◌==◌, ℕ_discrete, retain,
  if◌then◌else◌,
}
use lapin.Base.Dict
use lapin.Frame.{
  ChannelId, AmqpFrame, AmqpClass, basic_cancel, FrameApi, Effect, deregister_consumer, reject,
  resolve, FrameSending, FrameEntry, ExpectedReply, cancel_expected_replies,
}
use lapin.Frames.{Frames}

-- `drop_pending_frames_for_channel`: what stays of a queue, and what happens to the others.
pub keep_others : {P : Type 0} → FrameApi P → ChannelId → List (FrameEntry P) → List (FrameEntry P)
keep_others api c = retain (λ f. not (api.channel_id f.frame == c))

module _ {P E : Type 0} where
  drop_method : ChannelId → AmqpClass P → FrameSending → E → List (Effect E)
  drop_method c (basic_cancel tag p) sending error = deregister_consumer c tag ∷ resolve sending
  drop_method c (AmqpClass.other p) sending error = reject sending error

  drop_frame : AmqpFrame P → FrameSending → E → List (Effect E)
  unfolding drop_method
  drop_frame (AmqpFrame.method c m) sending error = drop_method c m sending error
  drop_frame (AmqpFrame.protocol_header p) sending error = reject sending error
  drop_frame (AmqpFrame.header c p) sending error = reject sending error
  drop_frame (AmqpFrame.body c b) sending error = reject sending error
  drop_frame AmqpFrame.heartbeat sending error = reject sending error
  drop_frame (AmqpFrame.invalid_heartbeat c) sending error = reject sending error

  -- `drop_pending_frames`: a pending basic.cancel deregisters its consumer and succeeds.
  unfoldable pub drop_pending_frames : List (FrameEntry P) → E → List (Effect E)
  unfolding drop_frame
  drop_pending_frames [] error = []
  drop_pending_frames (f ∷ fs) error =
      drop_frame f.frame f.sending error ++ drop_pending_frames fs error

  -- The map is drained in its own order.
  unfoldable pub cancel_all : List (ChannelId × List (ExpectedReply P)) → E → List (Effect E)
  cancel_all [] error = []
  cancel_all ((c, replies) ∷ m) error = cancel_expected_replies replies error ++ cancel_all m error

  unfoldable pub clear_all_expected_replies : E → Frames P E → Frames P E × List (Effect E)
  clear_all_expected_replies error s =
      (record s { expected_replies = [] }, cancel_all s.expected_replies error)

  unfoldable pub drop_pending : E → Frames P E → Frames P E × List (Effect E)
  unfolding clear_all_expected_replies
  drop_pending error s =
      let emptied = record s {
        publish_frames = [];
        retry_frames = [];
        frames = [];
        low_prio_frames = [];
      } in
      let (cleared, cancelled) = clear_all_expected_replies error emptied in
      (
        record cleared { poison = some error },
        drop_pending_frames s.retry_frames error
            ++ (drop_pending_frames s.publish_frames error
                ++ (drop_pending_frames s.frames error
                    ++ (drop_pending_frames s.low_prio_frames error ++ cancelled))),
      )

  unfoldable pub reject_channel : FrameApi P → ChannelId → E → List (FrameEntry P) → List (Effect E)
  reject_channel api c error [] = []
  reject_channel api c error (f ∷ fs) =
      let rest = reject_channel api c error fs in
      if api.channel_id f.frame == c then reject f.sending error ++ rest else rest

  unfoldable pub drop_frames_for_channel :
      FrameApi P → ChannelId → E → Frames P E → Frames P E × List (Effect E)
  drop_frames_for_channel api c error s = (
    record s {
      retry_frames = keep_others api c s.retry_frames;
      publish_frames = keep_others api c s.publish_frames;
      frames = keep_others api c s.frames;
      low_prio_frames = keep_others api c s.low_prio_frames;
    },
    reject_channel api c error s.retry_frames
        ++ (reject_channel api c error s.publish_frames
            ++ (reject_channel api c error s.frames
                ++ reject_channel api c error s.low_prio_frames)),
  )

  unfoldable pub poison_channel : ChannelId → E → Frames P E → Frames P E
  poison_channel c error s = record s {
    channels_poison = Dict.insert ℕ_discrete c error s.channels_poison;
  }

  unfoldable pub drop_poison : Frames P E → Frames P E
  drop_poison s = record s { poison = none }

  unfoldable pub drop_channel_poison : ChannelId → Frames P E → Frames P E
  drop_channel_poison c s = record s {
    channels_poison = Dict.remove ℕ_discrete c s.channels_poison;
  }
