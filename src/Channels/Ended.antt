-- ===== src/Channels/Ended.antt =====
-- What an error of the connection leaves of it and of its channels.
use lapin.Base.{Bool, true, false, ◌&&◌, ◌≡◌, refl, List, [], ◌∷◌, arith, is_empty}
use lapin.Frame.{ChannelId}
use lapin.Error.{Error}
use lapin.Error
use lapin.ChannelStatus.{state_is, set_state}
use lapin.ConnectionStatus.{ConnectionState}
use lapin.ConnectionStatus
use lapin.Confirms.{on_channel_error}
use lapin.Frames.{has_pending}
use lapin.Frames.Discard.{drop_pending}
use lapin.Channel.{
  Channel, set_connection_error_here, error_publisher_confirms, error_consumers, in_state,
}
use lapin.Channels.{Channels, is_error, each, to_each, fail, set_connection_error}
use lapin.Channels

module _ {P O A K : Type 0} where
  -- A channel in error, with no consumer and no confirm that is pending.
  unfoldable pub failed : Channel P O A K → Bool
  failed ch =
      state_is Error.error ch.status.state
      && (is_empty ch.consumers && is_empty ch.acknowledgements.pending)

  unfoldable pub all_failed : List (ChannelId × Channel P O A K) → Bool
  all_failed [] = true
  all_failed ((id, ch) ∷ channels) = failed ch && all_failed channels

  set_connection_error_here-failed :
      (e : Error K) (ch : Channel P O A K) → failed (set_connection_error_here e ch).0 ≡ true
  unfolding failed set_connection_error_here error_publisher_confirms error_consumers in_state
      set_state on_channel_error
  set_connection_error_here-failed e ch = ground arith

  each-all_failed :
      (e : Error K) (channels : List (ChannelId × Channel P O A K))
      → all_failed (each (set_connection_error_here e) channels).0 ≡ true
  unfolding all_failed each
  each-all_failed e [] = refl
  each-all_failed e ((id, ch) ∷ channels) =
      ground (arith, set_connection_error_here-failed e ch, each-all_failed e channels)

  -- The first error of a connection leaves it in error, with nothing to send and no reply expected, and
  -- every channel in error, without consumers and pending confirms; a further error leaves the whole of
  -- the connection as it is, its state, its switches, its queues and its channels, and tells nobody.
  pub set_connection_error_lem :
      (e again : Error K) (cs : Channels P O A K)
      → is_error cs.connection_status.state ≡ false
      → let cs' = (set_connection_error e cs).0 in
        (is_error cs'.connection_status.state ≡ true)
        × (has_pending cs'.frames ≡ false)
        × (cs'.frames.expected_replies ≡ [])
        × (all_failed cs'.channels ≡ true)
        × (set_connection_error again cs' ≡ (cs', []))
  unfolding set_connection_error fail to_each Channels.in_state ConnectionStatus.set_state
      has_pending drop_pending
  set_connection_error_lem e again cs h =
      let all = each-all_failed e cs.channels in
      (
        ground (arith, h),
        ground (arith, h),
        ground (arith, h),
        ground (arith, h, all),
        ground (arith, h),
      )
