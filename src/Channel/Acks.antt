-- ===== src/Channel/Acks.antt =====
-- src/channel.rs: the broker's acknowledgements of publishes, and the program's own of deliveries.
-- A publish in confirm mode is given the two promises that it registers.
use lapin.Base.{
  ℕ, Bool, true, false, ◌&&◌, ◌==◌, ltb, Option, none, some, List, [], ◌∷◌, ◌++◌, map,
  if◌then◌else◌,
}
use lapin.Frame.{PromiseId, ShortString}
use lapin.Acker.{ok, err}
use lapin.Error.{Error, from_kind, protocol_error}
use lapin.Confirms.{
  Acknowledgements, AmqpResult, register_pending, drop_all, drop_pending, complete_pending_before,
}
use lapin.Confirms
use lapin.Consumers
use lapin.Command.{spawn, do_channel_close}
use lapin.Channel.{Protocol, Channel, Effect, of_confirms, of_consumers, rpc, Done}
use lapin.Channel

module _ {P O A K : Type 0} where
  unfoldable pub before_basic_publish :
      PromiseId → PromiseId → Channel P O A K → Channel P O A K × Option PromiseId
  before_basic_publish promise err_promise ch =
      if ch.status.confirm
      then (let (acknowledgements, confirm) =
            register_pending promise err_promise ch.acknowledgements in
          (record ch { acknowledgements = acknowledgements }, some confirm))
      else (ch, none)

  unfoldable pub before_basic_cancel : ShortString → Channel P O A K → Channel P O A K
  before_basic_cancel tag ch = record ch { consumers = Consumers.start_cancel_one tag ch.consumers }

  -- The channel is closed from a task of its own.
  unfoldable pub acknowledgement_error : K → ℕ → ℕ → Channel P O A K → Done P O A K
  acknowledgement_error e class_id method_id ch = (
    ch,
    rpc (spawn (do_channel_close e class_id method_id)) ∷ [],
    err (from_kind (protocol_error e)),
  )

  settled : Protocol K → ℕ → ℕ → AmqpResult → Channel P O A K → Done P O A K
  settled api class_id method_id AmqpResult.ok ch = (ch, [], ok tt)
  settled api class_id method_id (AmqpResult.precondition_failed success tag) ch =
      acknowledgement_error (api.violation Channel.precondition_failed) class_id method_id ch

  settle :
      Protocol K
      → ℕ
      → ℕ
      → Acknowledgements P (Error K) × List (Confirms.Effect P (Error K)) × AmqpResult
      → Channel P O A K
      → Done P O A K
  settle api class_id method_id (acknowledgements, effects, res) ch =
      let (ch', more, out) =
        settled api class_id method_id res (record ch { acknowledgements = acknowledgements }) in
      (ch', map of_confirms effects ++ more, out)

  -- The common shape of the two handlers below, which differ in what they tell the confirms.
  unfoldable pub confirmed_by :
      Bool → Protocol K → ℕ → ℕ → ℕ → Bool → Channel P O A K → Done P O A K
  unfolding settled settle
  confirmed_by success api class_id method_id tag multiple ch =
      let all = drop_all success ch.acknowledgements in
      if ch.status.confirm
      then if multiple
        then if ltb 0 tag
          then settle api class_id method_id
              (complete_pending_before tag success ch.acknowledgements) ch
          else settle api class_id method_id (all.0, all.1, AmqpResult.ok) ch
        else settle api class_id method_id (drop_pending tag success ch.acknowledgements) ch
      else (ch, [], ok tt)

  unfoldable pub on_basic_ack_received :
      Protocol K → ℕ → ℕ → ℕ → Bool → Channel P O A K → Done P O A K
  unfolding confirmed_by
  on_basic_ack_received api class_id method_id tag multiple ch =
      confirmed_by true api class_id method_id tag multiple ch

  unfoldable pub on_basic_nack_received :
      Protocol K → ℕ → ℕ → ℕ → Bool → Channel P O A K → Done P O A K
  unfolding confirmed_by
  on_basic_nack_received api class_id method_id tag multiple ch =
      confirmed_by false api class_id method_id tag multiple ch

  unfoldable pub drop_prefetched_messages : Channel P O A K → Channel P O A K × List (Effect P K)
  drop_prefetched_messages ch =
      let (consumers, effects) = Consumers.drop_prefetched_messages ch.consumers in
      (record ch { consumers = consumers }, map of_consumers effects)

  unfoldable pub on_basic_recover_async_sent : Channel P O A K → Channel P O A K × List (Effect P K)
  on_basic_recover_async_sent ch = drop_prefetched_messages ch

  unfoldable pub on_basic_recover_ok_received : Channel P O A K → Done P O A K
  on_basic_recover_ok_received ch =
      let (ch', effects) = drop_prefetched_messages ch in (ch', effects, ok tt)

  -- An acknowledgement of all that is outstanding.
  unfoldable pub on_basic_ack_sent :
      Bool → ℕ → Channel P O A K → Channel P O A K × List (Effect P K)
  on_basic_ack_sent multiple tag ch =
      if multiple && (tag == 0) then drop_prefetched_messages ch else (ch, [])

  unfoldable pub on_basic_nack_sent :
      Bool → ℕ → Channel P O A K → Channel P O A K × List (Effect P K)
  on_basic_nack_sent multiple tag ch =
      if multiple && (tag == 0) then drop_prefetched_messages ch else (ch, [])
