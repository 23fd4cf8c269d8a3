-- ===== src/Heartbeat/Pace.antt =====
-- The pace of heartbeats, and the end of a silent connection.
use lapin.Base.{
  ℕ, ◌+◌, ◌-◌, ◌*◌, ◌≤◌, ◌<◌, ◌≡◌, inl, inr, min, max, true, Option, none, some, List, [], ◌∷◌, leb,
  arith, Bool-cases, sym, subst,
}
use lapin.Acker.{armed, kill, killed}
use lapin.Heartbeat.{
  Heartbeat, Effect, send_heartbeat, missing_heartbeat_error, millisecond, duration_max, poll_inner,
  poll_timeout, update_last_write, beat,
}

-- How long the task sleeps; 0 where it stops.
abbrev pub wait_of : Option ℕ → ℕ
wait_of none = 0
wait_of (some d) = d

-- How long the server may be silent.
abbrev pub allowed : ℕ → ℕ
allowed timeout = min (timeout * 4) duration_max

-- A poll while the server is not silent for too long.
poll_heard :
    (timeout now : ℕ) (h : Heartbeat)
    → h.timeout ≡ some timeout
    → now - h.last_read ≤ allowed timeout
    → poll_timeout armed true now now now h ≡ beat timeout (now - h.last_write) now h
unfolding poll_timeout poll_inner killed
poll_heard timeout now h e s = ground (arith, e, s)

beat_idle :
    (timeout elapsed now : ℕ) (h : Heartbeat)
    → elapsed ≤ timeout
    → beat timeout elapsed now h ≡ (some (max (timeout - elapsed) millisecond), h, [])
unfolding beat
beat_idle timeout elapsed now h q = ground arith

beat_sent :
    (timeout elapsed now : ℕ) (h : Heartbeat)
    → timeout < elapsed
    → beat timeout elapsed now h ≡ (some timeout, update_last_write now h, send_heartbeat ∷ [])
unfolding beat
beat_sent timeout elapsed now h q = ground arith

-- What a result of a poll at `now` promises of a poll that is late enough.
abbrev Paced : ℕ → ℕ → ℕ → (Option ℕ × Heartbeat × List Effect) → Type 0
Paced timeout now later (wait, h', effects) =
    now + wait_of wait < later
    → (0 < wait_of wait)
      × (wait_of wait ≤ max timeout millisecond)
      × ((poll_timeout armed true later later later h').2 ≡ send_heartbeat ∷ [])

-- A poll, no earlier than the last write, of a connected connection with a positive timeout that
-- was not silent for too long makes the task sleep for a
-- positive time, at most the timeout or a millisecond. If nothing is written meanwhile, the poll
-- after that time sends a heartbeat, if the server was not silent for too long by then either.
pub poll_timeout_paced :
    (timeout now later : ℕ) (h : Heartbeat)
    → h.timeout ≡ some timeout
    → 0 < timeout
    → h.last_write ≤ now
    → now - h.last_read ≤ allowed timeout
    → later - h.last_read ≤ allowed timeout
    → now + wait_of (poll_timeout armed true now now now h).0 < later
    → let (wait, h', effects) = poll_timeout armed true now now now h in
      (0 < wait_of wait)
      × (wait_of wait ≤ max timeout millisecond)
      × ((poll_timeout armed true later later later h').2 ≡ send_heartbeat ∷ [])
unfolding update_last_write
poll_timeout_paced timeout now later h e p w s l after =
    subst (Paced timeout now later) (sym (poll_heard timeout now h e s))
      (elim (Bool-cases (leb (now - h.last_write) timeout)) [
        | inl q ↦
            subst (Paced timeout now later)
              (sym (beat_idle timeout (now - h.last_write) now h (ground arith)))
              (λ after. (
                ground arith,
                ground arith,
                ground (
                  arith,
                  poll_heard timeout later h e l,
                  beat_sent timeout (later - h.last_write) later h (ground arith),
                ),
              ))
        | inr q ↦
            subst (Paced timeout now later)
              (sym (beat_sent timeout (now - h.last_write) now h (ground arith)))
              (λ after. (
                ground arith,
                ground arith,
                ground (
                  arith,
                  poll_heard timeout later (update_last_write now h) e l,
                  beat_sent timeout (later - now) later (update_last_write now h) (ground arith),
                ),
              ))
      ])
      after

-- A poll on a connected connection that was silent for longer than four timeouts reports a missing
-- heartbeat, kills the switch and stops the task; a poll after that does nothing.
pub poll_timeout_silent :
    (timeout now1 now2 now3 later1 later2 later3 : ℕ) (h : Heartbeat)
    → h.timeout ≡ some timeout
    → allowed timeout < now1 - h.last_read
    → let (wait, h', effects) = poll_timeout armed true now1 now2 now3 h in
      (wait ≡ none)
      × (effects ≡ missing_heartbeat_error ∷ [])
      × (killed h'.killswitch ≡ true)
      × (poll_timeout armed true later1 later2 later3 h' ≡ (none, h', []))
unfolding poll_timeout poll_inner beat killed kill
poll_timeout_silent timeout now1 now2 now3 later1 later2 later3 h e s =
    (ground (arith, e, s), ground (arith, e, s), ground (arith, e, s), ground (arith, e, s))
