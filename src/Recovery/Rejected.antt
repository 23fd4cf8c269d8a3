-- ===== src/Recovery/Rejected.antt =====
-- What a lost connection and the recovery of a channel make of the promises that the channel owes.
use lapin.Base.{◌≡◌, refl, Option, none, some, List, [], ◌∷◌, ◌++◌, arith, retain, ℕ_discrete}
use lapin.Base.Dict
use lapin.Frame.{
  PromiseId, AmqpFrame, ExpectedReply, FrameApi, rejected, reject, cancel_expected_replies,
}
use lapin.Frames.{push, push_frames, check_poison, cancel_reply}
use lapin.Frames.Order.{pending}
use lapin.Frames.Replies.{take_expected_replies}
use lapin.Frames.Discard.{drop_frames_for_channel, poison_channel, drop_channel_poison}
use lapin.Frames.Discard.Drop.{off_channel, on_channel, rejections, drop_frames_for_channel-pending}
use lapin.Frames.Discard.Poison.{poison_channel-push, poison_channel-push_frames}
use lapin.Confirms
use lapin.Confirms.Settle.{settled, confirms}
use lapin.Confirms.Failure.{reset-settled}
use lapin.Error.{Error, with_notifier}
use lapin.ChannelStatus.{
  ChannelRecoveryContext, notified, set_channel_status, replies_canceled, Store, set_reconnecting,
  set_expected_replies, new_context, finalize_connection, finalize_recovery,
}
use lapin.Recovery.{recover, Channel, init_recovery, update_recovery}

module _ {P K : Type 0} where
  -- When the connection of a channel is lost that is in no recovery yet, the error it hands out has
  -- a new notifier; with that error are rejected the promises of the channel's pending frames,
  -- which go, where those of the other channels stay. A push of a frame on the channel then changes
  -- nothing, cancels its expected reply and rejects its resolver, or else its canceler, and a push of
  -- frames changes nothing and rejects its resolver, all with that error.
  pub init_recovery-push_frames :
      (api : FrameApi P) (error : Error K) (topology : P) (ch : Channel P K) (store : Store)
      (frame : AmqpFrame P) (canceler : PromiseId) (reply : Option (ExpectedReply P))
      (resolver : Option PromiseId) (fs : List (AmqpFrame P)) (promise : PromiseId)
      → ch.status.recovery_context ≡ none
      → let (err, ch', store', effects) = init_recovery api error topology ch store in
        (err ≡ with_notifier (some store.notifiers) error)
        × (effects ≡ rejections (retain (on_channel ch.id) (pending ch.frames)) err)
        × (pending ch'.frames ≡ retain (off_channel ch.id) (pending ch.frames))
        × (push ch.id frame canceler reply resolver ch'.frames ≡ (
          ch'.frames,
          cancel_reply reply err
              ++ reject (record { canceler = some canceler; resolver = resolver }) err,
        ))
        × (push_frames ch.id fs promise ch'.frames ≡ (ch'.frames, rejected promise err ∷ []))
  unfolding init_recovery set_reconnecting new_context poison_channel
  init_recovery-push_frames api error topology ch store frame canceler reply resolver fs promise n =
      let err = (set_reconnecting error topology ch.status store).0 in
      let (kept, gone) = drop_frames_for_channel-pending api ch.id err ch.frames in
      (
        ground (arith, n),
        gone,
        kept,
        poison_channel-push err ch.id frame canceler reply resolver
            (drop_frames_for_channel api ch.id err ch.frames).0,
        (poison_channel-push_frames err ch.id ch.id fs promise
            (drop_frames_for_channel api ch.id err ch.frames).0).0,
      )

  -- At the start of a recovery a channel's expected replies are put by and its confirms are all
  -- settled, and pushes are no longer rejected on its own account; the end of the recovery notifies
  -- whoever waits for it and then cancels those replies, with the error that began it.
  pub update_recovery-finalize_connection :
      (ch : Channel P K) (ctx : ChannelRecoveryContext P K) (replies : List (ExpectedReply P))
      → ch.status.recovery_context ≡ some ctx
      → Dict.get ℕ_discrete ch.id ch.frames.expected_replies ≡ some replies
      → (ch' : Channel P K) × (effects : List (Confirms.Effect P (Error K))) × (update_recovery ch
          ≡ some (ch', effects, ctx.topology))
        × (Dict.get ℕ_discrete ch.id ch'.frames.expected_replies ≡ none)
        × (check_poison ch.id ch'.frames ≡ ch.frames.poison)
        × (settled effects ≡ confirms ch.acknowledgements.pending)
        × (ch'.acknowledgements.pending ≡ [])
        × ((finalize_connection ch'.status).1
            ≡ set_channel_status ch.status.id ch.status.killswitch
              ∷ notified ctx.notifier
              ∷ replies_canceled (cancel_expected_replies replies ctx.cause)
              ∷ [])
  unfolding update_recovery recover take_expected_replies set_expected_replies drop_channel_poison
      check_poison finalize_connection finalize_recovery
  update_recovery-finalize_connection ch ctx replies h g =
      let frames = ch.frames in
      let acknowledgements = ch.acknowledgements in
      let ended = Confirms.reset ctx.cause acknowledgements in
      let (all, none_left) = reset-settled ctx.cause acknowledgements in
      let gone = Dict.get-remove ℕ_discrete ch.id ch.id frames.expected_replies in
      let cleared = Dict.get-remove ℕ_discrete ch.id ch.id frames.channels_poison in
      (
        record ch {
          status = record ch.status {
            recovery_context = some (record ctx { expected_replies = some replies });
          };
          frames = record frames {
            expected_replies = Dict.remove ℕ_discrete ch.id frames.expected_replies;
            channels_poison = Dict.remove ℕ_discrete ch.id frames.channels_poison;
          };
          acknowledgements = ended.0;
        },
        ended.1,
        ground (arith, h, g),
        ground (arith, gone),
        ground (arith, cleared),
        all,
        none_left,
        refl,
      )
