-- ===== src/IoLoop/Stream/Run.antt =====
-- src/io_loop.rs: a turn of the loop, a connection until the loop no longer goes on, and what follows:
-- another connection, or the end. The backoffs are those of the crate backon: each connection is
-- given with the retries behind it, and the delays that are left are a list.
use lapin.Base.{ℕ, zero, suc, Bool, true, false, not, ◌&&◌, none, some, if◌then◌else◌}
use lapin.Acker.{Result, ok, err}
use lapin.Error.{Error, is_io_error}
use lapin.SocketState.{SocketEvent, poll_events, wait, handle_event}
use lapin.Channels.{by}
use lapin.IoLoop.Control.{
  can_read, can_write, critical_error, ensure_setup, should_continue, check_connection_state,
  is_initial,
}
use lapin.IoLoop.Stream.{
  Environment, Library, Io, Outcome, and_then, in_loop, tell, attempt_flush, write,
}
use lapin.IoLoop.Stream.Reads.{read, handle_frames}

module _ {S P O A K : Type 0} (env : Environment S K) (lib : Library P O A K)
    (next_event : S → SocketEvent × S) where
  goes_on : Io S P O A K → Bool
  goes_on io = should_continue (env.rpc_is_empty io.stream) io.loop

  -- The event that is queued, or else the next one that comes.
  await_event : Io S P O A K → Io S P O A K
  await_event io = elim (wait io.loop.socket_state) [
    | some socket ↦ in_loop (λ l. record l { socket_state = socket }) io
    | none ↦
        let (event, stream) = next_event io.stream in
        in_loop (λ l. record l { socket_state = handle_event event l.socket_state })
          (record io { stream = stream })
  ]

  polled : Io S P O A K → Io S P O A K
  polled io = in_loop (λ l. record l { socket_state = poll_events l.socket_state }) io

  -- From the flush on.
  exchange : ℕ → Io S P O A K → Outcome S P O A K (Unit {0})
  unfolding goes_on
  exchange fuel io = and_then (attempt_flush env lib io) (λ t flushed.
      and_then (write env lib fuel flushed) (λ t written.
        let checked = in_loop check_connection_state written in
        and_then (if goes_on checked then read env lib fuel checked else some (checked, ok tt))
          (λ t got.
            and_then (handle_frames lib got)
              (λ did handled. some (in_loop check_connection_state handled, ok tt)))))

  -- On the fuel of `write` and `read`.
  unfoldable pub run : ℕ → Io S P O A K → Outcome S P O A K (Unit {0})
  unfolding polled goes_on await_event exchange
  run fuel io = elim (ensure_setup (polled io).loop) [
    | none ↦ none
    | some (false, l, effects) ↦ some (tell (by 0 effects) (record (polled io) { loop = l }), ok tt)
    | some (true, l, effects) ↦
        let ready =
          in_loop check_connection_state (tell (by 0 effects) (record (polled io) { loop = l })) in
        let idle = not (can_read ready.loop) && (not (can_write ready.loop) && goes_on ready) in
        exchange fuel (polled (if idle then await_event ready else ready))
  ]

  -- The `while` loop over `run`: `work` is the fuel of each turn. `res` is how the last error ended.
  unfoldable pub connected_loop :
      ℕ → ℕ → Result (Error K) (Unit {0}) → Io S P O A K → Outcome S P O A K (Unit {0})
  unfolding goes_on run
  connected_loop work zero res io = none
  connected_loop work (suc fuel) res io =
      if goes_on io
      then (elim (run work io) [
        | none ↦ none
        | some (io', ok t) ↦ connected_loop work fuel res io'
        | some (io', err e) ↦
            let (l, effects) = critical_error e io'.loop in
            let ended = tell (by 0 effects) (record io' { loop = l }) in
            let next = connected_loop work fuel (err e) ended in
            if is_initial l.status && is_io_error e then some (ended, err e) else next
      ])
      else some (io, res)
