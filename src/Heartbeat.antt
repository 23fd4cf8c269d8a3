-- ===== src/Heartbeat.antt =====
-- src/heartbeat.rs: when a heartbeat is sent, and when a silent connection is given up. Each reading
-- of the clock is an argument, in nanoseconds; a later reading is not below an earlier one.
-- Durations are as large as needed, but for the saturation at the greatest one.
pub mod Pace
use lapin.Base.{
  ℕ, ◌+◌, ◌-◌, ◌*◌, ◌^◌, min, max, Bool, true, false, Option, none, some, List, [], ◌∷◌, ltb, leb,
  if◌then◌else◌,
}
use lapin.Acker.{KillSwitch, armed, kill, killed}
use lapin.Acker

abbrev pub millisecond : ℕ
millisecond = 1000000

-- `Duration::MAX`: 2^64 - 1 seconds and 999999999 nanoseconds.
abbrev pub duration_max : ℕ
duration_max = 2 ^ 64 * 1000000000 - 1

-- The commands to the RPC task.
pub data Effect : Type 0 where
  send_heartbeat : Effect
  missing_heartbeat_error : Effect

-- `Inner`, with the switch of `Heartbeat`. The poison is a shared object: `poison` is the one that
-- `Inner` holds now.
pub record Heartbeat : Type 0 where
  pub last_read : ℕ
  pub last_write : ℕ
  pub timeout : Option ℕ
  pub poison : KillSwitch
  pub killswitch : KillSwitch

unfoldable pub set_timeout : ℕ → Heartbeat → Heartbeat
set_timeout timeout h = record h { timeout = some timeout }

unfoldable pub update_last_write : ℕ → Heartbeat → Heartbeat
update_last_write now h = record h { last_write = now }

unfoldable pub update_last_read : ℕ → Heartbeat → Heartbeat
update_last_read now h = record h { last_read = now }

unfoldable pub cancel : Heartbeat → Heartbeat
cancel h = record h { timeout = none; poison = (kill h.poison).0 }

unfoldable pub reset : ℕ → ℕ → Heartbeat → Heartbeat
unfolding Acker.reset cancel update_last_write update_last_read
reset read write h =
    let h' = record h { killswitch = Acker.reset h.killswitch } in
    record (update_last_write write (update_last_read read (cancel h'))) { poison = armed }

-- `checked_sub`, and what follows it: the rest of the time, or a heartbeat now.
beat : ℕ → ℕ → ℕ → Heartbeat → Option ℕ × Heartbeat × List Effect
unfolding update_last_write
beat timeout elapsed now h =
    if leb elapsed timeout
    then (some (max (timeout - elapsed) millisecond), h, [])
    else (some timeout, update_last_write now h, send_heartbeat ∷ [])

-- `Inner::poll_timeout` with the clock read for the last read, for the last write, and for the
-- update of the last write; the first component is how long to sleep, `none` to stop.
unfoldable pub poll_inner : ℕ → ℕ → ℕ → Heartbeat → Option ℕ × Heartbeat × List Effect
unfolding beat
poll_inner now1 now2 now3 h = elim h.timeout [
  | none ↦ (none, h, [])
  | some timeout ↦
      if ltb (min (timeout * 4) duration_max) (now1 - h.last_read)
      then (
        none,
        record h { timeout = none; killswitch = (kill h.killswitch).0 },
        missing_heartbeat_error ∷ [],
      )
      else beat timeout (now2 - h.last_write) now3 h
]

-- `Heartbeat::poll_timeout`, with the poison that the task was started with and whether the
-- connection is connected.
unfoldable pub poll_timeout :
    KillSwitch → Bool → ℕ → ℕ → ℕ → Heartbeat → Option ℕ × Heartbeat × List Effect
unfolding cancel
poll_timeout poison connected now1 now2 now3 h =
    let polled = poll_inner now1 now2 now3 h in
    if killed poison then (none, h, []) else if connected then polled else (none, cancel h, [])
