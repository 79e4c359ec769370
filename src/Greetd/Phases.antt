-- ===== src/Greetd/Phases.antt =====
-- The phases of a session: what a connection aims at is what it is in.
use mcs_qs.Prelude.{ℕ, ◌≡◌, refl, arith, Bool, true, false, List, [], ◌∷◌, if◌then◌else◌}
use mcs_qs.Log.{same_bytes}
use mcs_qs.Greetd.{
  GreetdState, inactive, authenticating, launching, Request, Response, Connection, Event, success,
  error_response, auth_message, other_response, auth_error, plain_error, other_error,
  create_session_event, respond_event, cancel_session_event, connected_event, disconnected_event,
  disconnect, socket_error_event, launch_event, ready_event, is_active, set_inactive, set_user,
  deactivate, activate, create_session, respond, launch, on_socket_connected, on_socket_error,
  on_success, on_error, on_auth_message, emit, auth_failure_signal, restart, handle,
  on_socket_ready, step, new_connection,
}
use mcs_qs.Prelude.{Bool-cases, inl, inr}

-- A connected connection is in a session exactly if it aims at one, there is no session before it is
-- connected, and one that was disconnected is not connected.
abbrev pub IsValid : Connection → Type 0
IsValid c =
    (c.connected ≡ true → c.target_active ≡ is_active c.state)
    × (c.connected ≡ false → c.closed ≡ false → c.state ≡ inactive)
    × (c.closed ≡ true → c.connected ≡ false)

-- QLocalSocket connects when `connectToServer` is called, which the constructor alone does, and it can
-- be disconnected only when it is connected.
abbrev pub MayHappen : Event → Connection → Type 0
MayHappen connected_event c = c.closed ≡ false
MayHappen disconnected_event c = c.connected ≡ true
MayHappen _ c = Unit {0}

new_connection-IsValid : (socket : List ℕ) → IsValid (new_connection socket)
new_connection-IsValid socket = ground arith

if-IsValid : (b : Bool) (x y : Connection) → IsValid x → IsValid y → IsValid (if b then x else y)
if-IsValid true x y v w = v
if-IsValid false x y v w = w

module _ (compact : Request → List ℕ) where
  deactivate-IsValid : (c : Connection) → IsValid c → IsValid (deactivate compact c)
  unfolding deactivate set_inactive is_active
  deactivate-IsValid c v = ground arith

  activate-IsValid : (c : Connection) → IsValid c → IsValid (activate compact c)
  unfolding activate deactivate set_inactive is_active
  activate-IsValid c v = ground arith

  on_success-IsValid :
      (s : GreetdState) (c : Connection)
      → c.state ≡ s
      → IsValid c
      → IsValid (on_success compact s c)
  unfolding on_success is_active
  on_success-IsValid authenticating c e v = ground arith
  on_success-IsValid launching c e v = ground arith
  on_success-IsValid _ c e v = deactivate-IsValid c v

  on_error-IsValid :
      (t : _) (desc : List ℕ) (c : Connection) → IsValid c → IsValid (on_error compact t desc c)
  unfolding on_error set_inactive is_active
  on_error-IsValid auth_error desc c v =
      ground (arith, deactivate-IsValid (emit (auth_failure_signal desc) c) v)
  on_error-IsValid plain_error desc c v = ground arith
  on_error-IsValid other_error desc c v = deactivate-IsValid c v

  restart-IsValid : (c : Connection) → IsValid c → IsValid (restart compact c)
  unfolding restart
  restart-IsValid c v = activate-IsValid (deactivate compact c) (deactivate-IsValid c v)

  handle-IsValid : (r : Response) (c : Connection) → IsValid c → IsValid (handle compact r c).0
  unfolding handle on_auth_message
  handle-IsValid success c v = on_success-IsValid c.state c refl v
  handle-IsValid (error_response type desc) c v =
      ground (arith, restart-IsValid c v, on_error-IsValid type desc c v)
  handle-IsValid (auth_message message type) c v = ground arith
  handle-IsValid other_response c v = deactivate-IsValid c v

  on_socket_ready-IsValid :
      (rs : List Response) (c : Connection) → IsValid c → IsValid (on_socket_ready compact rs c).0
  unfolding on_socket_ready
  on_socket_ready-IsValid [] c v = v
  on_socket_ready-IsValid (r ∷ rs) c v = elim (Bool-cases (handle compact r c).1) [
    | inl t ↦ rw t (on_socket_ready-IsValid rs (handle compact r c).0 (handle-IsValid r c v))
    | inr f ↦ rw f (handle-IsValid r c v)
  ]

  set_user-IsValid :
      (user : List ℕ) (c : Connection) → IsValid c → IsValid (set_user compact user c)
  set_user-IsValid user c v = if-IsValid (same_bytes user c.user) _ _ v (v.0, v.1, v.2)

  create_session-IsValid :
      (user : List ℕ) (c : Connection) → IsValid c → IsValid (create_session compact user c)
  unfolding create_session
  create_session-IsValid user c v =
      if-IsValid c.available _ _
        (activate-IsValid (set_user compact user c) (set_user-IsValid user c v)) v

  connected-IsValid :
      (c : Connection) → c.closed ≡ false → IsValid c → IsValid (on_socket_connected compact c)
  unfolding on_socket_connected activate deactivate set_inactive is_active
  connected-IsValid c open' v = ground arith

  -- Every event that may happen keeps a connection valid: the calls of a user, the socket's signals and
  -- its disconnection, and every sequence of responses of the daemon.
  pub event-IsValid :
      (e : Event) (c : Connection) → MayHappen e c → IsValid c → IsValid (step compact e c)
  unfolding step create_session respond launch on_socket_connected on_socket_error is_active
      disconnect
  event-IsValid (create_session_event user) c m v = create_session-IsValid user c v
  event-IsValid (respond_event text) c m v = ground arith
  event-IsValid cancel_session_event c m v = deactivate-IsValid c v
  event-IsValid connected_event c m v = connected-IsValid c m v
  event-IsValid disconnected_event c m v =
      (λ e. absurd (ground (arith, e)), λ e f. absurd (ground (arith, f)), λ e. refl)
  event-IsValid socket_error_event c m v = deactivate-IsValid (record c { available = false }) v
  event-IsValid (launch_event command environment exit) c m v = ground arith
  event-IsValid (ready_event rs) c m v = on_socket_ready-IsValid rs c v
