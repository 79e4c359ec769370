-- ===== src/Greetd/Sessions.antt =====
-- What the operations of a connection send, and when its state moves.
use mathlib.Core.List.{append_assoc}
use mcs_qs.Prelude.{ℕ, ◌≡◌, ◌⊎◌, inl, inr, refl, arith, true, false, List, ◌∷◌, ◌++◌}
use mcs_qs.Greetd.{
  GreetdState, inactive, authenticating, ready_to_launch, launching, launched, Request,
  create_session_request, cancel_session_request, Response, Connection, success, error_response,
  auth_message, other_response, ErrorType, auth_error, plain_error, other_error, is_active,
  is_empty, set_inactive, deactivate, activate, frame, on_success, on_error, on_auth_message,
  restart, handle, on_socket_ready,
}
use mcs_qs.Log.{same_bytes}
use mcs_qs.Texts.{codes}

-- The states that one response may lead to, from each state.
unfoldable pub Follows : GreetdState → GreetdState → Type 0
Follows authenticating s = (s ≡ inactive) ⊎ ((s ≡ authenticating) ⊎ (s ≡ ready_to_launch))
Follows launching s = (s ≡ inactive) ⊎ ((s ≡ authenticating) ⊎ ((s ≡ launching) ⊎ (s ≡ launched)))
Follows from s = (s ≡ inactive) ⊎ ((s ≡ authenticating) ⊎ (s ≡ from))

module _ (compact : Request → List ℕ) where
  -- A state that a session ends in, starts again in, or stays in may follow.
  Follows-same :
      (from s : GreetdState) → (s ≡ inactive) ⊎ ((s ≡ authenticating) ⊎ (s ≡ from)) → Follows from s
  unfolding Follows
  Follows-same authenticating s h = ground (arith, h)
  Follows-same launching s h = ground (arith, h)
  Follows-same inactive s h = h
  Follows-same ready_to_launch s h = h
  Follows-same launched s h = h

  state-deactivate :
      (c : Connection)
      → ((deactivate compact c).state ≡ inactive) ⊎ ((deactivate compact c).state ≡ c.state)
  unfolding deactivate set_inactive
  state-deactivate c = ground arith

  state-activate :
      (c : Connection)
      → ((activate compact c).state ≡ inactive)
        ⊎ (((activate compact c).state ≡ authenticating) ⊎ ((activate compact c).state ≡ c.state))
  unfolding activate deactivate set_inactive
  state-activate c = ground arith

  restart-written :
      (c : Connection)
      → c.connected ≡ true
      → is_active c.state ≡ true
      → is_empty c.user ≡ false
      → ((restart compact c).written
          ≡ c.written
            ++ (frame compact cancel_session_request
                ++ frame compact (create_session_request c.user)))
        × ((restart compact c).state ≡ authenticating)
        × ((restart compact c).response_required ≡ false)
        × ((restart compact c).target_active ≡ true)
  unfolding restart deactivate activate set_inactive is_active
  restart-written c up active user =
      rw (up, active, user, append_assoc c.written) (refl, refl, refl, refl)

  -- If a session with a user is running on a connected socket, and the next response is the plain error
  -- "a session is already being configured", then the loop over the responses sends a request to cancel
  -- it and one to create a session for the same user, is authenticating with no response due, and stops:
  -- the later responses are left in the reader.
  pub on_socket_ready-restart :
      (rs : List Response) (c : Connection)
      → c.connected ≡ true
      → is_active c.state ≡ true
      → is_empty c.user ≡ false
      → let complaint =
          error_response plain_error (codes "a session is already being configured") in
        let after = on_socket_ready compact (complaint ∷ rs) c in
        (after.0.written
          ≡ c.written
            ++ (frame compact cancel_session_request
                ++ frame compact (create_session_request c.user)))
        × (after.0.state ≡ authenticating)
        × (after.0.response_required ≡ false)
        × (after.0.target_active ≡ true)
        × (after.1 ≡ rs)
  unfolding on_socket_ready handle same_bytes
  on_socket_ready-restart rs c up active user =
      let w = restart-written c up active user in (w.0, w.1, w.2, w.3, refl)

  state-restart :
      (c : Connection)
      → ((restart compact c).state ≡ inactive)
        ⊎ (((restart compact c).state ≡ authenticating) ⊎ ((restart compact c).state ≡ c.state))
  unfolding restart
  state-restart c = ground (arith, state-activate (deactivate compact c), state-deactivate c)

  on_success-Follows :
      (s : GreetdState) (c : Connection) → c.state ≡ s → Follows s (on_success compact s c).state
  unfolding on_success Follows
  on_success-Follows authenticating c e = inr (inr refl)
  on_success-Follows launching c e = ground arith
  on_success-Follows inactive c e = ground (arith, state-deactivate c)
  on_success-Follows ready_to_launch c e = ground (arith, state-deactivate c)
  on_success-Follows launched c e = ground (arith, state-deactivate c)

  on_error-inactive :
      (t : ErrorType) (desc : List ℕ) (c : Connection)
      → ((on_error compact t desc c).state ≡ inactive)
        ⊎ ((on_error compact t desc c).state ≡ c.state)
  unfolding on_error set_inactive
  on_error-inactive auth_error desc c = inl refl
  on_error-inactive plain_error desc c = inl refl
  on_error-inactive other_error desc c = state-deactivate c

  -- One response of the daemon moves a session on by at most one phase: authentication ends ready to
  -- launch, a launch ends launched; from every state it may also end the session or start it again.
  pub handle-Follows :
      (r : Response) (c : Connection) → Follows c.state (handle compact r c).0.state
  unfolding handle on_auth_message
  handle-Follows success c = on_success-Follows c.state c refl
  handle-Follows (error_response type desc) c =
      Follows-same c.state _ (ground (arith, state-restart c, on_error-inactive type desc c))
  handle-Follows (auth_message message type) c = Follows-same c.state _ (ground arith)
  handle-Follows other_response c = Follows-same c.state _ (ground (arith, state-deactivate c))
