-- ===== src/Greetd.antt =====
-- `GreetdConnection` of services/greetd/connection.cpp: the session with the greeter daemon. The state
-- holds what the source's object holds, the socket as whether it is connected, whether it was
-- disconnected and the bytes written to it, and the signals emitted, in order. `compact` is Qt's
-- compact JSON text of a request.
pub mod Phases
pub mod Socket
pub mod Framing
pub mod Responses
pub mod Sessions
use mcs_qs.Prelude.{
  ℕ, ◌%◌, ◌^◌, Bool, true, false, not, ◌&&◌, ◌||◌, Option, none, some, List, [], ◌∷◌, ◌++◌, length,
  ◌==◌, if◌then◌else◌,
}
use mcs_qs.Log.{same_bytes}
use mcs_qs.Log.Bytes.{u32}

-- `GreetdState::Enum`
pub data GreetdState : Type 0 where
  inactive authenticating ready_to_launch launching launched : GreetdState

pub data Request : Type 0 where
  create_session_request : List ℕ → Request
  cancel_session_request : Request
  -- with the text that the user gave, if one was asked for
  post_auth_message_response : Option (List ℕ) → Request
  start_session_request : List (List ℕ) → List (List ℕ) → Request

pub data Signal : Type 0 where
  user_changed state_changed ready_to_launch_signal launched_signal quit_signal : Signal
  auth_failure_signal error_signal : List ℕ → Signal
  auth_message_signal : List ℕ → Bool → Bool → Bool → Signal

-- The types of error and of message that the source tells apart.
pub data ErrorType : Type 0 where
  auth_error plain_error other_error : ErrorType

pub data MessageType : Type 0 where
  visible secret info_message error_message other_message : MessageType

pub data Response : Type 0 where
  success : Response
  error_response : ErrorType → List ℕ → Response
  auth_message : List ℕ → MessageType → Response
  other_response : Response

pub record Connection : Type 0 where
  pub available : Bool
  pub state : GreetdState
  pub target_active : Bool
  pub exit_after_launch : Bool
  pub response_required : Bool
  pub user : List ℕ
  pub connected : Bool
  -- Whether the socket was disconnected; the source connects it once.
  pub closed : Bool
  pub written : List ℕ
  pub signals : List Signal

unfoldable pub is_active : GreetdState → Bool
is_active inactive = false
is_active _ = true

abbrev pub is_ready : GreetdState → Bool
is_ready ready_to_launch = true
is_ready _ = false

abbrev pub is_empty : List ℕ → Bool
is_empty [] = true
is_empty (x ∷ xs) = false

-- "a session is already being configured"
abbrev pub already_configured : List ℕ
already_configured =
    97 ∷ 32 ∷ 115 ∷ 101 ∷ 115 ∷ 115 ∷ 105 ∷ 111 ∷ 110 ∷ 32 ∷ 105 ∷ 115 ∷ 32 ∷ 97 ∷ 108 ∷ 114 ∷ 101
    ∷ 97 ∷ 100 ∷ 121 ∷ 32 ∷ 98 ∷ 101 ∷ 105 ∷ 110 ∷ 103 ∷ 32 ∷ 99 ∷ 111 ∷ 110 ∷ 102 ∷ 105 ∷ 103 ∷ 117
    ∷ 114 ∷ 101 ∷ 100 ∷ []

-- The constructor: without a socket's name there is nothing to connect to.
abbrev pub new_connection : List ℕ → Connection
new_connection socket = record {
  available = not (is_empty socket);
  state = inactive;
  target_active = false;
  exit_after_launch = false;
  response_required = false;
  user = [];
  connected = false;
  closed = false;
  written = [];
  signals = [];
}

abbrev pub emit : Signal → Connection → Connection
emit s c = record c { signals = c.signals ++ s ∷ [] }

abbrev pub enter : GreetdState → Connection → Connection
enter s c = record c { state = s }

unfoldable pub set_inactive : Connection → Connection
set_inactive c =
    emit state_changed
      (record c { target_active = false; response_required = false; state = inactive })

module _ (compact : Request → List ℕ) where
  -- The length as a native 32-bit number, little-endian here, and the text.
  unfoldable pub frame : Request → List ℕ
  frame r = u32 (length (compact r) % 2 ^ 32) ++ compact r

  abbrev pub send_request : Request → Connection → Connection
  send_request r c = record c { written = c.written ++ frame r }

  -- `setActive(false)`
  unfoldable pub deactivate : Connection → Connection
  deactivate c =
      if c.connected && is_active c.state
      then set_inactive (send_request cancel_session_request (record c { target_active = false }))
      else record c { target_active = false }

  -- `setActive(true)`; an empty user turns it into `setActive(false)`.
  unfoldable pub activate : Connection → Connection
  activate c =
      if c.connected && not (is_active c.state)
      then if is_empty c.user
        then deactivate (record c { target_active = true })
        else emit state_changed (
            enter authenticating
              (send_request (create_session_request c.user) (record c { target_active = true })))
      else record c { target_active = true }

  abbrev pub set_user : List ℕ → Connection → Connection
  set_user user c =
      if same_bytes user c.user then c else emit user_changed (record c { user = user })

  unfoldable pub create_session : List ℕ → Connection → Connection
  create_session user c = if c.available then activate (set_user user c) else c

  abbrev pub cancel_session : Connection → Connection
  cancel_session c = deactivate c

  unfoldable pub respond : List ℕ → Connection → Connection
  respond response c =
      if c.response_required
      then record (send_request (post_auth_message_response (some response)) c) {
        response_required = false;
      }
      else c

  unfoldable pub launch : List (List ℕ) → List (List ℕ) → Bool → Connection → Connection
  launch command environment exit c =
      if is_ready c.state
      then send_request (start_session_request command environment)
          (record c { state = launching; exit_after_launch = exit })
      else c

  unfoldable pub on_socket_connected : Connection → Connection
  on_socket_connected c =
      let c' : Connection = record c { connected = true } in
      if c.target_active then activate c' else c'

  unfoldable pub on_socket_error : Connection → Connection
  on_socket_error c = deactivate (record c { available = false })

  abbrev pub quit_if : Bool → Connection → Connection
  quit_if true c = emit quit_signal c
  quit_if false c = c

  -- The case `success` in each state.
  unfoldable pub on_success : GreetdState → Connection → Connection
  on_success authenticating c =
      emit ready_to_launch_signal (emit state_changed (enter ready_to_launch c))
  on_success launching c =
      quit_if c.exit_after_launch (emit launched_signal (emit state_changed (enter launched c)))
  on_success _ c = deactivate c

  -- The case `error`, after the special case.
  unfoldable pub on_error : ErrorType → List ℕ → Connection → Connection
  on_error auth_error desc c = set_inactive (deactivate (emit (auth_failure_signal desc) c))
  on_error plain_error desc c = set_inactive (emit (error_signal desc) c)
  on_error other_error desc c = deactivate c

  abbrev pub needs_response : MessageType → Bool
  needs_response visible = true
  needs_response secret = true
  needs_response _ = false

  abbrev pub is_error : MessageType → Bool
  is_error error_message = true
  is_error _ = false

  abbrev pub echoes : MessageType → Bool
  echoes secret = false
  echoes _ = true

  unfoldable pub on_auth_message : List ℕ → MessageType → Connection → Connection
  on_auth_message message type c =
      let c' : Connection =
        emit (auth_message_signal message (is_error type) (needs_response type) (echoes type))
          (record c { response_required = needs_response type }) in
      if needs_response type then c' else send_request (post_auth_message_response none) c'

  abbrev pub is_running : ErrorType → List ℕ → Bool
  is_running plain_error desc = same_bytes desc already_configured
  is_running _ desc = false

  unfoldable pub restart : Connection → Connection
  restart c = activate (deactivate c)

  -- One response; the special case of a session that is already there leaves the loop.
  unfoldable pub handle : Response → Connection → Connection × Bool
  handle success c = (on_success c.state c, true)
  handle (error_response type desc) c =
      if is_running type desc then (restart c, false) else (on_error type desc c, true)
  handle (auth_message message type) c = (on_auth_message message type c, true)
  handle other_response c = (deactivate c, true)

  -- The loop, over the complete responses in the reader: the state, and the responses it leaves there.
  unfoldable pub on_socket_ready : List Response → Connection → Connection × List Response
  on_socket_ready [] c = (c, [])
  on_socket_ready (r ∷ rs) c =
      let (c', more) = handle r c in
      let rest = on_socket_ready rs c' in if more then rest else (c', rs)

-- The socket leaves its connected state, of which the source is not told.
unfoldable pub disconnect : Connection → Connection
disconnect c = record c { connected = false; closed = true }

-- What can happen to a connection.
pub data Event : Type 0 where
  create_session_event respond_event : List ℕ → Event
  cancel_session_event connected_event disconnected_event socket_error_event : Event
  launch_event : List (List ℕ) → List (List ℕ) → Bool → Event
  ready_event : List Response → Event

unfoldable pub step : (Request → List ℕ) → Event → Connection → Connection
step k (create_session_event user) c = create_session k user c
step k (respond_event text) c = respond k text c
step k cancel_session_event c = cancel_session k c
step k connected_event c = on_socket_connected k c
step k disconnected_event c = disconnect c
step k socket_error_event c = on_socket_error k c
step k (launch_event command environment exit) c = launch k command environment exit c
step k (ready_event rs) c = (on_socket_ready k rs c).0
