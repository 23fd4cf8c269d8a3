-- ===== src/ConsumerStatus.antt =====
-- src/consumer_status.rs: a consumer's life, and its delegate, which is its number here.
use lapin.Base.{ℕ, Bool, true, false, Option, none, if◌then◌else◌}

pub data ConsumerState : Type 0 where
  active active_with_delegate canceling canceled : ConsumerState

abbrev pub is_active : ConsumerState → Bool
is_active active = true
is_active active_with_delegate = true
is_active canceling = false
is_active canceled = false

abbrev pub DelegateId : Type 0
DelegateId = ℕ

pub record ConsumerStatus : Type 0 where
  pub state : ConsumerState
  pub delegate : Option DelegateId

unfoldable pub set_delegate : Option DelegateId → ConsumerStatus → ConsumerStatus
set_delegate delegate s =
    if is_active s.state then record { state = active_with_delegate; delegate = delegate } else s

unfoldable pub start_cancel : ConsumerStatus → ConsumerStatus
start_cancel s = record { state = canceling; delegate = none }

unfoldable pub cancel : ConsumerStatus → ConsumerStatus
cancel s = record { state = canceled; delegate = none }
