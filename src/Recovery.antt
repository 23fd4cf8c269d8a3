-- ===== src/Recovery.antt =====
-- src/channel.rs, `init_recovery` and `update_recovery`: what the failure of a connection and the
-- start of a recovery do to a channel's status, frames and confirms together. The channel's topology
-- is that of its registry and its consumers, and is given. Each part has a lock of its own, which these
-- functions take in turn: here nothing else happens in between.
pub mod Rejected
use lapin.Base.{Option, none, some, List, [], ◌∷◌, ◌++◌}
use lapin.Frame.{ChannelId, ExpectedReply}
use lapin.Frame
use lapin.Frames.{Frames}
use lapin.Frames.Replies.{take_expected_replies}
use lapin.Frames.Discard.{drop_frames_for_channel, poison_channel, drop_channel_poison}
use lapin.Confirms.{Acknowledgements}
use lapin.Confirms
use lapin.Error.{Error}
use lapin.ChannelStatus.{
  ChannelRecoveryContext, ChannelStatus, Store, set_reconnecting, set_expected_replies,
}

-- The part of a channel that a recovery resets, with the frames of the connection.
pub record Channel (P K : Type 0) : Type 0 where
  pub id : ChannelId
  pub status : ChannelStatus P K
  pub frames : Frames P (Error K)
  pub acknowledgements : Acknowledgements P (Error K)

module _ {P K : Type 0} where
  unfoldable pub init_recovery :
      Frame.FrameApi P
      → Error K
      → P
      → Channel P K
      → Store
      → Error K × Channel P K × Store × List (Frame.Effect (Error K))
  init_recovery api error topology ch store =
      let (err, status, store') = set_reconnecting error topology ch.status store in
      let (frames, effects) = drop_frames_for_channel api ch.id err ch.frames in
      (
        err,
        record ch { status = status; frames = poison_channel ch.id err frames },
        store',
        effects,
      )

  recover :
      Option (ChannelStatus P K)
      → ChannelRecoveryContext P K
      → Channel P K
      → Channel P K × List (Confirms.Effect P (Error K)) × P
  recover status ctx ch =
      let (replies, frames) = take_expected_replies ch.id ch.frames in
      let (acknowledgements, effects) = Confirms.reset ctx.cause ch.acknowledgements in
      (
        record ch {
          status = elim status [ none ↦ ch.status | some s ↦ s ];
          frames = drop_channel_poison ch.id frames;
          acknowledgements = acknowledgements;
        },
        effects,
        ctx.topology,
      )

  -- `none` where the channel is in no recovery.
  unfoldable pub update_recovery :
      Channel P K → Option (Channel P K × List (Confirms.Effect P (Error K)) × P)
  unfolding recover
  update_recovery ch = elim ch.status.recovery_context [
    | none ↦ none
    | some ctx ↦
        let (replies, frames) = take_expected_replies ch.id ch.frames in
        some (recover (set_expected_replies replies ch.status) ctx ch)
  ]
