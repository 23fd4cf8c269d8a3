-- ===== src/Channel/Handshake.antt =====
-- src/channel.rs: the handlers of the handshake that opens a connection. The step that a handler is
-- given is the one that was expected. What the authenticator answers is
-- given; the client's properties, which the start fills in, are not modelled.
use lapin.Base.{
  ℕ, String, Bool, true, false, Option, none, some, List, [], ◌∷◌, ◌++◌, if◌then◌else◌,
}
use lapin.Frame.{PromiseId, ConnectionStep, into_connection_resolver}
use lapin.Frame
use lapin.Acker.{Result, ok, err}
use lapin.Error.{Error, from_kind, invalid_connection_state, auth_provider_error}
use lapin.ConnectionStatus.{ConnectionState}
use lapin.ConnectionStatus
use lapin.Tuning.{tune_connection_configuration}
use lapin.Command.{
  set_connection_error, spawn, connection_tune_ok_and_open, connection_start_ok,
  connection_secure_ok, Task,
}
use lapin.Command
use lapin.Channel.{Channel, Effect, rpc, event, resolved, rejected, Done}

abbrev pub is_connecting : ConnectionState → Bool
is_connecting ConnectionState.connecting = true
is_connecting state = false

rejects : {P K : Type 0} → Option PromiseId → Error K → List (Effect P K)
rejects none e = []
rejects (some resolver) e = rejected resolver e ∷ []

module _ {P O A K : Type 0} where
  unfoldable pub connection_process_error :
      ConnectionState
      → Option (ConnectionStep P)
      → Option PromiseId
      → Channel P O A K
      → Done P O A K
  unfolding rejects
  connection_process_error state step resolver ch =
      let e : Error K = from_kind (invalid_connection_state state) in
      let from_step : Option PromiseId = elim step [
        | none ↦ none
        | some s ↦ some (into_connection_resolver s).0
      ] in
      (ch, rpc (set_connection_error e) ∷ (rejects from_step e ++ rejects resolver e), err e)

  -- The connection's promise: it is resolved when the connection is open.
  unfoldable pub on_connection_open_ok_received : PromiseId → Channel P O A K → Done P O A K
  on_connection_open_ok_received resolver ch =
      if is_connecting ch.connection_status.state
      then (
        record ch {
          connection_status =
              (ConnectionStatus.set_state ConnectionState.connected ch.connection_status).1;
        },
        resolved resolver ∷ event Command.connected ∷ [],
        ok tt,
      )
      else connection_process_error ch.connection_status.state none (some resolver) ch

  tuned : ℕ → ℕ → ℕ → ℕ → PromiseId → Channel P O A K → Done P O A K
  tuned frame_min_size channel_max frame_max heartbeat resolver ch =
      let c =
        tune_connection_configuration frame_min_size channel_max frame_max heartbeat
          ch.configuration in
      (
        record ch { configuration = c },
        rpc (
              spawn (
                connection_tune_ok_and_open c.channel_max c.frame_max c.heartbeat
                  ch.connection_status.vhost resolver))
            ∷ [],
        ok tt,
      )

  tuned_at : ℕ → ℕ → ℕ → ℕ → ConnectionStep P → Channel P O A K → Done P O A K
  unfolding tuned
  tuned_at frame_min_size channel_max frame_max heartbeat (Frame.start_ok resolver connection auth)
        ch =
      tuned frame_min_size channel_max frame_max heartbeat resolver ch
  tuned_at frame_min_size channel_max frame_max heartbeat (Frame.secure_ok resolver connection auth)
        ch =
      tuned frame_min_size channel_max frame_max heartbeat resolver ch
  tuned_at frame_min_size channel_max frame_max heartbeat
        (Frame.protocol_header resolver connection) ch =
      connection_process_error ch.connection_status.state
        (some (ConnectionStep.protocol_header resolver connection)) none ch

  -- `FRAME_MIN_SIZE` is given. The server may tune once authentication is over.
  unfoldable pub on_connection_tune_received :
      ℕ → ℕ → ℕ → ℕ → ConnectionStep P → Channel P O A K → Done P O A K
  unfolding tuned_at
  on_connection_tune_received frame_min_size channel_max frame_max heartbeat step ch =
      if is_connecting ch.connection_status.state
      then tuned_at frame_min_size channel_max frame_max heartbeat step ch
      else connection_process_error ch.connection_status.state (some step) none ch

  -- The next step of authentication, if the authenticator goes on.
  authenticates : Result String (Unit {0}) → Task K → Channel P O A K → Done P O A K
  authenticates (ok u) task ch = (ch, rpc (spawn task) ∷ [], ok tt)
  authenticates (err reason) task ch = (ch, [], err (from_kind (auth_provider_error reason)))

  started_at : Result String (Unit {0}) → ConnectionStep P → Channel P O A K → Done P O A K
  unfolding authenticates
  started_at auth_starter (Frame.protocol_header resolver connection) ch =
      authenticates auth_starter (connection_start_ok resolver) ch
  started_at auth_starter (Frame.start_ok resolver connection auth) ch =
      connection_process_error ch.connection_status.state
        (some (ConnectionStep.start_ok resolver connection auth)) none ch
  started_at auth_starter (Frame.secure_ok resolver connection auth) ch =
      connection_process_error ch.connection_status.state
        (some (ConnectionStep.secure_ok resolver connection auth)) none ch

  unfoldable pub on_connection_start_received :
      Result String (Unit {0}) → ConnectionStep P → Channel P O A K → Done P O A K
  unfolding started_at
  on_connection_start_received auth_starter step ch =
      if is_connecting ch.connection_status.state
      then started_at auth_starter step ch
      else connection_process_error ch.connection_status.state (some step) none ch

  secured_at : Result String (Unit {0}) → ConnectionStep P → Channel P O A K → Done P O A K
  unfolding authenticates
  secured_at continue_auth (Frame.start_ok resolver connection auth) ch =
      authenticates continue_auth (connection_secure_ok resolver) ch
  secured_at continue_auth (Frame.secure_ok resolver connection auth) ch =
      authenticates continue_auth (connection_secure_ok resolver) ch
  secured_at continue_auth (Frame.protocol_header resolver connection) ch =
      connection_process_error ch.connection_status.state
        (some (ConnectionStep.protocol_header resolver connection)) none ch

  unfoldable pub on_connection_secure_received :
      Result String (Unit {0}) → ConnectionStep P → Channel P O A K → Done P O A K
  unfolding secured_at
  on_connection_secure_received continue_auth step ch =
      if is_connecting ch.connection_status.state
      then secured_at continue_auth step ch
      else connection_process_error ch.connection_status.state (some step) none ch
