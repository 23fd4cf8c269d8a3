-- ===== src/Witnesses/Numbers.antt =====
-- Id sequences, heartbeats and promises at concrete inputs.
use lapin.Acker.{armed, killed}
use lapin.Heartbeat.{
  Heartbeat, millisecond, poll_timeout, poll_inner, send_heartbeat, missing_heartbeat_error,
}
use lapin.Heartbeat.Pace.{wait_of, poll_timeout_paced, poll_timeout_silent}
use lapin.Base.{[], ◌∷◌, ◌<◌, max, true, none, some, ◌≤◌, ◌≡◌, refl, false, some, arith}
use lapin.Sequence.{IdSequence, new, set_max, next, advance}
use lapin.Sequence.Cycle.{next-cycle}

-- A channel id sequence at its bound.
abbrev at_bound : IdSequence
at_bound = record { allow_zero = false; max = some 10; id = 10 }

next-cycle_example : (next 256 (advance 256 10 (set_max 10 (new false)))).0 ≡ 1
next-cycle_example = next-cycle 256 10 10 (omega arith) (omega arith)

-- A timeout of 30 seconds; the last write was 10 seconds before the poll.
abbrev beating : Heartbeat
beating = record {
  last_read = 95000000000;
  last_write = 90000000000;
  timeout = some 30000000000;
  poison = armed;
  killswitch = armed;
}

poll_timeout_paced_example :
    let (wait, h, effects) =
      poll_timeout armed true 100000000000 100000000000 100000000000 beating in
    (0 < wait_of wait)
    × (wait_of wait ≤ max 30000000000 millisecond)
    × ((poll_timeout armed true 120000000001 120000000001 120000000001 h).2 ≡ send_heartbeat ∷ [])
unfolding poll_timeout poll_inner killed
poll_timeout_paced_example =
    poll_timeout_paced 30000000000 100000000000 120000000001 beating refl (omega arith)
      (omega arith) (omega arith) (omega arith) (ground arith)

poll_timeout_silent_example :
    let (wait, h, effects) =
      poll_timeout armed true 215000000001 215000000002 215000000003 beating in
    (wait ≡ none)
    × (effects ≡ missing_heartbeat_error ∷ [])
    × (killed h.killswitch ≡ true)
    × (poll_timeout armed true 230000000000 230000000001 230000000002 h ≡ (none, h, []))
poll_timeout_silent_example =
    poll_timeout_silent 30000000000 215000000001 215000000002 215000000003 230000000000 230000000001
      230000000002 beating refl (omega arith)
