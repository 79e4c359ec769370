-- ===== src/Examples/Sessions.antt =====
-- A greeter's session.
use mcs_qs.Prelude.{ℕ, ◌≡◌, refl, arith, true, false, List, [], ◌∷◌, ◌++◌}
use mcs_qs.Greetd.{
  Request, create_session_request, cancel_session_request, Connection, authenticating,
  ready_to_launch, success, auth_message, visible, ready_event, step, frame, handle,
  on_socket_ready, error_response, plain_error, Response, is_active,
}
use mcs_qs.Greetd.Phases.{IsValid, event-IsValid}
use mcs_qs.Greetd.Sessions.{Follows, handle-Follows, on_socket_ready-restart}
use mcs_qs.Texts.{codes}

abbrev compact : Request → List ℕ
compact r = 123 ∷ 125 ∷ []

abbrev in_session : Connection
in_session = record {
  available = true;
  state = authenticating;
  target_active = true;
  exit_after_launch = false;
  response_required = true;
  user = 97 ∷ [];
  connected = true;
  closed = false;
  written = [];
  signals = [];
}

abbrev ready : Connection
ready = record in_session { state = ready_to_launch }

event_example :
    IsValid (step compact (ready_event (auth_message [] visible ∷ success ∷ [])) in_session)
unfolding is_active
event_example =
    event-IsValid compact (ready_event (auth_message [] visible ∷ success ∷ [])) in_session tt
      (λ e. refl, λ e f. absurd (ground (arith, e)), λ e. absurd (ground (arith, e)))

handle_example : Follows authenticating (handle compact success in_session).0.state
handle_example = handle-Follows compact success in_session

-- The complaint, with a message behind it that is left in the reader.
abbrev complaint : Response
complaint = error_response plain_error (codes "a session is already being configured")

restart_example :
    let after = on_socket_ready compact (complaint ∷ success ∷ []) in_session in
    (after.0.written
      ≡ in_session.written
        ++ (frame compact cancel_session_request
            ++ frame compact (create_session_request in_session.user)))
    × (after.0.state ≡ authenticating)
    × (after.0.response_required ≡ false)
    × (after.0.target_active ≡ true)
    × (after.1 ≡ success ∷ [])
unfolding is_active
restart_example = on_socket_ready-restart compact (success ∷ []) in_session refl refl refl
