-- ===== src/Requests/Publish.antt =====
-- src/generated/channel.rs, `basic_publish`: a publish, and in confirm mode the promise of its confirm. The
-- result is the promise that the call awaits and the confirm that it then hands out.
use lapin.Base.{ℕ, Option, List, [], ◌∷◌, ◌++◌, map, if◌then◌else◌}
use lapin.Frame.{PromiseId, AmqpClass}
use lapin.Acker.{Result, ok, err}
use lapin.Error.{Error}
use lapin.ChannelStatus.{state_error}
use lapin.Payload.{send_method_frame_with_body}
use lapin.Channel.{Channel, Effect, of_frames, wake}
use lapin.Channel.Acks.{before_basic_publish}
use lapin.Requests.{connected}

module _ {P K : Type 0} where
  unfoldable pub basic_publish :
      ℕ
      → AmqpClass P
      → List ℕ
      → P
      → PromiseId × PromiseId
      → PromiseId
      → Channel P P P K
      → Channel P P P K × List (Effect P K) × Result (Error K) (PromiseId × Option PromiseId)
  basic_publish class_id m payload properties confirms promise ch =
      if connected ch.status
      then (let (ch1, confirm) = before_basic_publish confirms.0 confirms.1 ch in
          let (frames, effects) =
            send_method_frame_with_body ch1.id ch1.configuration.frame_max class_id m payload
              properties promise ch1.frames in
          (
            record ch1 { frames = frames },
            map of_frames effects ++ wake ∷ [],
            ok (promise, confirm),
          ))
      else (ch, [], err (state_error "basic.publish" ch.status))
