-- ===== src/ConnectionStatus.antt =====
-- src/connection_status.rs: the state of a connection. The lock is held for the whole of each
-- operation.
use lapin.Base.{Bool, true, false, Option, none, some, String}
use lapin.Acker.{Result, ok, err}

pub data ConnectionState : Type 0 where
  initial connecting connected closing closed reconnecting error : ConnectionState

-- `Inner` and `StateInner`.
pub record ConnectionStatus (E : Type 0) : Type 0 where
  pub vhost : String
  pub username : String
  pub state : ConnectionState
  pub blocked : Bool
  pub poison : Option E

module _ {E : Type 0} where
  unfoldable pub new : String → String → ConnectionStatus E
  new vhost username = record {
    vhost = vhost;
    username = username;
    state = initial;
    blocked = false;
    poison = none;
  }

  -- `set_state`, with the state before.
  unfoldable pub set_state :
      ConnectionState → ConnectionStatus E → ConnectionState × ConnectionStatus E
  set_state state s = (s.state, record s { state = state })

  unfoldable pub as_result : Option E → Result E (Unit {0})
  as_result none = ok tt
  as_result (some e) = err e

  -- The poison is taken, and is what the call fails with.
  unfoldable pub set_connecting : ConnectionStatus E → Result E (Unit {0}) × ConnectionStatus E
  unfolding as_result
  set_connecting s = (as_result s.poison, record s { state = connecting; poison = none })

  unfoldable pub set_reconnecting : ConnectionStatus E → ConnectionStatus E
  set_reconnecting s = record s { state = reconnecting; blocked = false; poison = none }

  unfoldable pub poison : E → ConnectionStatus E → ConnectionStatus E
  poison e s = record s { poison = some e }

  unfoldable pub block : ConnectionStatus E → ConnectionStatus E
  block s = record s { blocked = true }

  unfoldable pub unblock : ConnectionStatus E → ConnectionStatus E
  unblock s = record s { blocked = false }
