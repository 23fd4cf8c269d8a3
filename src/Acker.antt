-- ===== src/Acker.antt =====
-- src/killswitch.rs, src/error_holder.rs and src/acker.rs: one-shot switches, write-once errors,
-- and the handle that answers a delivery once.
pub mod Once
use lapin.Base.{
  ℕ, Bool, true, false, not, ◌&&◌, ◌||◌, Option, none, some, List, [], ◌∷◌, is_some, if◌then◌else◌,
}
use lapin.Frame.{ChannelId}

pub data Result (E A : Type 0) : Type 0 where
  ok : A → Result E A
  err : E → Result E A

-- An atomic boolean, which the clones of a switch share.
pub record KillSwitch : Type 0 where
  pub dead : Bool

abbrev pub armed : KillSwitch
armed = record { dead = false }

-- `swap(true)`: whether this call was the first.
unfoldable pub kill : KillSwitch → KillSwitch × Bool
kill s = (record { dead = true }, not s.dead)

unfoldable pub killed : KillSwitch → Bool
killed s = s.dead

unfoldable pub reset : KillSwitch → KillSwitch
reset s = record { dead = false }

-- A `OnceLock`: `set` gives the error back if one is there.
pub record ErrorHolder (E : Type 0) : Type 0 where
  pub held : Option E

module _ {E : Type 0} where
  unfoldable pub set : E → ErrorHolder E → ErrorHolder E × Result E (Unit {0})
  set error h = elim h.held [
    | some first ↦ (h, err error)
    | none ↦ (record { held = some error }, ok tt)
  ]

  unfoldable pub check : ErrorHolder E → Result E (Unit {0})
  check h = elim h.held [ some error ↦ err error | none ↦ ok tt ]

-- `internal_rpc` says whether the acker has a handle on the RPC task.
pub record Acker (E : Type 0) : Type 0 where
  pub channel_id : ChannelId
  pub delivery_tag : ℕ
  pub internal_rpc : Bool
  pub error : Option (ErrorHolder E)
  pub killswitch : KillSwitch
  pub channel_killswitch : KillSwitch

-- What an acker asks of the RPC task, with the option's flags.
pub data Command : Type 0 where
  basic_ack : ChannelId → ℕ → Bool → Command
  basic_nack : ChannelId → ℕ → Bool → Bool → Command
  basic_reject : ChannelId → ℕ → Bool → Command

module _ {E : Type 0} where
  unfoldable pub poisoned : Acker E → Bool
  unfolding killed
  poisoned a = killed a.channel_killswitch

  unfoldable pub usable : Acker E → Bool
  unfolding poisoned
  usable a = not (poisoned a) && not (killed a.killswitch)

  unfoldable pub invalidate : Acker E → Acker E
  unfolding kill
  invalidate a = record a { killswitch = (kill a.killswitch).0 }

  checked : Option (ErrorHolder E) → Result E (Unit {0})
  unfolding check
  checked none = ok tt
  checked (some holder) = check holder

  -- What the promise of the command comes to, if one was sent.
  answered : Option E → Result E Bool
  answered none = ok true
  answered (some error) = err error

  -- `rpc`, with the outcome of the command's promise as an argument: the acker, the commands sent,
  -- and what the call returns.
  unfoldable pub rpc :
      (Acker E → Command) → Option E → Acker E → Acker E × List Command × Result E Bool
  unfolding poisoned kill checked answered
  rpc command answer a =
      let (switch, first) = kill a.killswitch in
      let used = record a { killswitch = switch } in
      if poisoned a
      then (a, [], ok false)
      else if not first
      then (used, [], ok false)
      else elim (checked a.error) [
        | err error ↦ (used, [], err error)
        | ok done ↦
            if a.internal_rpc then (used, command a ∷ [], answered answer) else (used, [], ok true)
      ]

  unfoldable pub ack : Bool → Option E → Acker E → Acker E × List Command × Result E Bool
  unfolding rpc
  ack multiple = rpc (λ a. basic_ack a.channel_id a.delivery_tag multiple)

  unfoldable pub nack : Bool → Bool → Option E → Acker E → Acker E × List Command × Result E Bool
  unfolding rpc
  nack multiple requeue = rpc (λ a. basic_nack a.channel_id a.delivery_tag multiple requeue)

  unfoldable pub reject : Bool → Option E → Acker E → Acker E × List Command × Result E Bool
  unfolding rpc
  reject requeue = rpc (λ a. basic_reject a.channel_id a.delivery_tag requeue)
