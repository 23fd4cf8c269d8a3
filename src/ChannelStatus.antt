-- ===== src/ChannelStatus.antt =====
-- src/channel_status.rs and src/channel_recovery_context.rs. The kill switches and notifiers that the status shares with deliveries and errors are numbers, and
-- the objects behind them a store: those from `switches` and `notifiers` on are not yet made.
pub mod Recovery
pub mod Waking
use lapin.Base.{
  ℕ, suc, String, Bool, true, false, not, ◌&&◌, ◌||◌, Option, none, some, List, [], ◌∷◌, ◌++◌, ◌==◌,
  if◌then◌else◌,
}
use lapin.Error.{
  ChannelState, initial, reconnecting, connected, closing, closed, error, invalid_channel_state,
  Error, NotifierId, with_notifier,
}
use lapin.Frame.{ChannelId, ExpectedReply, cancel_expected_replies}
use lapin.Frame
use lapin.Receiver.{DeliveryCause, ChannelReceiverStates, HeaderOutcome, BodyOutcome}
use lapin.Receiver

abbrev pub SwitchId : Type 0
SwitchId = ℕ

pub record ChannelRecoveryContext (P K : Type 0) : Type 0 where
  pub cause : Error K
  pub topology : P
  pub expected_replies : Option (List (ExpectedReply P))
  pub notifier : NotifierId

-- `set_channel_status` is the command to the RPC task, `notified` a call of `notify_all`.
pub data Effect (K : Type 0) : Type 0 where
  set_channel_status : ChannelId → SwitchId → Effect K
  notified : NotifierId → Effect K
  replies_canceled : List (Frame.Effect (Error K)) → Effect K

-- `Inner`, less the handle on the RPC task.
pub record ChannelStatus (P K : Type 0) : Type 0 where
  pub id : ChannelId
  pub confirm : Bool
  pub send_flow : Bool
  pub state : ChannelState
  pub receiver_state : ChannelReceiverStates
  pub recovery_context : Option (ChannelRecoveryContext P K)
  pub killswitch : SwitchId

pub record Store : Type 0 where
  pub switches : ℕ
  pub dead : List SwitchId
  pub notifiers : ℕ

unfoldable pub is_dead : SwitchId → List SwitchId → Bool
is_dead k [] = false
is_dead k (d ∷ dead) = (k == d) || is_dead k dead

-- `Inner::new`, with its switch made.
unfoldable pub new :
    {P K : Type 0} → ChannelId → Store → ChannelStatus P K × Store × List (Effect K)
new id store = (
  record {
    id = id;
    confirm = false;
    send_flow = true;
    state = initial;
    receiver_state = [];
    recovery_context = none;
    killswitch = store.switches;
  },
  record store { switches = suc store.switches },
  set_channel_status id store.switches ∷ [],
)

abbrev pub state_is : ChannelState → ChannelState → Bool
state_is initial initial = true
state_is reconnecting reconnecting = true
state_is connected connected = true
state_is closing closing = true
state_is closed closed = true
state_is error error = true
state_is s t = false

module _ {P K : Type 0} where
  unfoldable pub initializing : ChannelStatus P K → Bool
  initializing s = state_is initial s.state || state_is reconnecting s.state

  unfoldable pub is_closing : ChannelStatus P K → Bool
  is_closing s = state_is closing s.state || state_is reconnecting s.state

  unfoldable pub connected_or_recovering : ChannelStatus P K → Bool
  connected_or_recovering s = state_is connected s.state || state_is reconnecting s.state

  unfoldable pub can_receive_messages : ChannelStatus P K → Bool
  can_receive_messages s =
      state_is closing s.state || (state_is connected s.state || state_is reconnecting s.state)

  unfoldable pub auto_close : ChannelId → ChannelStatus P K → Bool
  auto_close id s = not (id == 0) && state_is connected s.state

  -- `ChannelRecoveryContext::new`, where a notifier is made.
  unfoldable pub new_context : Error K → P → NotifierId → ChannelRecoveryContext P K
  new_context cause topology notifier = record {
    cause = with_notifier (some notifier) cause;
    topology = topology;
    expected_replies = none;
    notifier = notifier;
  }

  unfoldable pub finalize_recovery : ChannelRecoveryContext P K → List (Effect K)
  finalize_recovery ctx = notified ctx.notifier ∷ elim ctx.expected_replies [
    | none ↦ []
    | some replies ↦ replies_canceled (cancel_expected_replies replies ctx.cause) ∷ []
  ]

  unfoldable pub finalize_connection : ChannelStatus P K → ChannelStatus P K × List (Effect K)
  finalize_connection s = (
    record s { state = connected; recovery_context = none },
    set_channel_status s.id s.killswitch
        ∷ elim s.recovery_context [ none ↦ [] | some ctx ↦ finalize_recovery ctx ],
  )

  unfoldable pub set_confirm : ChannelStatus P K → ChannelStatus P K × List (Effect K)
  set_confirm s = finalize_connection (record s { confirm = true })

  unfoldable pub set_state : ChannelState → ChannelStatus P K → ChannelStatus P K
  set_state state s = record s { state = state }

  unfoldable pub set_send_flow : Bool → ChannelStatus P K → ChannelStatus P K
  set_send_flow flow s = record s { send_flow = flow }

  unfoldable pub state_error : String → ChannelStatus P K → Error K
  state_error context s =
      let err : Error K = record {
        kind = invalid_channel_state s.state context;
        notifier = none;
      } in
      if state_is reconnecting s.state
      then with_notifier (elim s.recovery_context [ none ↦ none | some ctx ↦ some ctx.notifier ])
          err
      else err

  -- The switch is taken, killed, and a new one made in its place.
  unfoldable pub set_reconnecting :
      Error K → P → ChannelStatus P K → Store → Error K × ChannelStatus P K × Store
  set_reconnecting err topology s store =
      let s' = record s {
        state = reconnecting;
        receiver_state = Receiver.reset s.receiver_state;
        killswitch = store.switches;
      } in
      let store' = record store {
        switches = suc store.switches;
        dead = s.killswitch ∷ store.dead;
      } in
      elim s.recovery_context [
        | some ctx ↦ (ctx.cause, s', store')
        | none ↦
            let ctx = new_context err topology store.notifiers in
            (
              ctx.cause,
              record s' { recovery_context = some ctx },
              record store' { notifiers = suc store.notifiers },
            )
      ]

  -- `update_recovery_context`, as `Channel::update_recovery` uses it; `none` in no recovery.
  unfoldable pub set_expected_replies :
      Option (List (ExpectedReply P)) → ChannelStatus P K → Option (ChannelStatus P K)
  set_expected_replies replies s = elim s.recovery_context [
    | none ↦ none
    | some ctx ↦
        some (record s { recovery_context = some (record ctx { expected_replies = replies }) })
  ]

  unfoldable pub set_will_receive :
      ℕ → DeliveryCause → ChannelStatus P K → ChannelStatus P K × SwitchId
  set_will_receive class_id cause s = (
    record s { receiver_state = Receiver.set_will_receive class_id cause s.receiver_state },
    s.killswitch,
  )

  unfoldable pub set_content_length : ℕ → ℕ → ChannelStatus P K → ChannelStatus P K × HeaderOutcome
  set_content_length class_id length s =
      let (states, outcome) =
        Receiver.set_content_length class_id length s.confirm s.receiver_state in
      (record s { receiver_state = states }, outcome)

  unfoldable pub receive : ℕ → ChannelStatus P K → ChannelStatus P K × BodyOutcome
  receive length s =
      let (states, outcome) = Receiver.receive length s.confirm s.receiver_state in
      (record s { receiver_state = states }, outcome)
