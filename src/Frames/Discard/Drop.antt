-- ===== src/Frames/Discard/Drop.antt =====
-- What dropping the frames of a channel leaves, and which promises it rejects.
use lapin.Base.{
  ◌≡◌, refl, sym, ◌∙◌, ap, Bool, not, List, [], ◌∷◌, ◌++◌, ◌==◌, arith, append_assoc, retain,
}
use lapin.Frame.{ChannelId, FrameApi, Effect, reject, FrameEntry, carried_channel}
use lapin.Frames.{Frames}
use lapin.Frames.Order.{pending}
use lapin.Frames.Discard.{keep_others, reject_channel, drop_frames_for_channel}

module _ {P : Type 0} where
  abbrev pub on_channel : ChannelId → FrameEntry P → Bool
  on_channel c f = carried_channel f.frame == c

  abbrev pub off_channel : ChannelId → FrameEntry P → Bool
  off_channel c f = not (on_channel c f)

  retain-append :
      (p : FrameEntry P → Bool) (xs ys : List (FrameEntry P))
      → retain p (xs ++ ys) ≡ retain p xs ++ retain p ys
  retain-append p [] ys = refl
  retain-append p (x ∷ xs) ys = ground (arith, retain-append p xs ys)

  keep_others-retain :
      (api : FrameApi P) (c : ChannelId) (fs : List (FrameEntry P))
      → keep_others api c fs ≡ retain (off_channel c) fs
  unfolding keep_others
  keep_others-retain api c [] = refl
  keep_others-retain api c (f ∷ fs) =
      ground (arith, api.channel_id_lem f.frame, keep_others-retain api c fs)

module _ {P E : Type 0} where
  -- The rejections of a list of frames.
  abbrev pub rejections : List (FrameEntry P) → E → List (Effect E)
  rejections [] error = []
  rejections (f ∷ fs) error = reject f.sending error ++ rejections fs error

  rejections-append :
      (xs ys : List (FrameEntry P)) (error : E)
      → rejections (xs ++ ys) error ≡ rejections xs error ++ rejections ys error
  rejections-append [] ys error = refl
  rejections-append (x ∷ xs) ys error =
      ap (◌++◌ (reject x.sending error)) (rejections-append xs ys error)
      ∙ sym (append_assoc (reject x.sending error) (rejections xs error) (rejections ys error))

  reject_channel-retain :
      (api : FrameApi P) (c : ChannelId) (error : E) (fs : List (FrameEntry P))
      → reject_channel api c error fs ≡ rejections (retain (on_channel c) fs) error
  unfolding reject_channel
  reject_channel-retain api c error [] = refl
  reject_channel-retain api c error (f ∷ fs) =
      ground (arith, api.channel_id_lem f.frame, reject_channel-retain api c error fs)

  -- `drop_frames_for_channel` keeps the pending frames of the other channels, in order, and
  -- rejects the promise of each pending frame of the channel, in the order they would go out.
  pub drop_frames_for_channel-pending :
      (api : FrameApi P) (c : ChannelId) (error : E) (s : Frames P E)
      → (pending (drop_frames_for_channel api c error s).0 ≡ retain (off_channel c) (pending s))
        × ((drop_frames_for_channel api c error s).1
            ≡ rejections (retain (on_channel c) (pending s)) error)
  unfolding drop_frames_for_channel
  drop_frames_for_channel-pending api c error s = (
    simp (retain-append, keep_others-retain),
    simp (retain-append, rejections-append, reject_channel-retain),
  )
