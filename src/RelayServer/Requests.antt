-- ===== src/RelayServer/Requests.antt =====
-- broker/relay_server.py, `send_request`, `send_request_streaming`, `notify_approval` and
-- `notify_revoke`: what the API and the admin pages ask of the server.
use Prim.Native.String.{◌++◌ as append}
use remote_llmconnector.Shared.{
  lookup, insert, remove, write, Env, ℕ, ◌+◌, String, Bool, true, false, Option, none, some, [],
  if◌then◌else◌,
}
use remote_llmconnector.Protocol.{RelayMessage, create_approved_message, create_revoked_message}
use remote_llmconnector.RelayServer.State.{
  RelayServer, ConnectorRegistration, waiting, result, disconnected, cancelled, Pending, future,
  queue, sent, closed, emit, registered,
}

-- How a request starts: no such connector (KeyError), the socket fails (ConnectionError), or it
-- waits on a slot, for the registration that it was sent to.
pub data Started : Type 0 where
  key_error : Started
  send_error : Started
  waits : ℕ → ℕ → Started

-- A new slot, entered under the message's id.
unfoldable pub enter_request :
    ℕ → ConnectorRegistration → String → Pending → RelayServer → RelayServer
enter_request r c message_id p s = record s {
  slots = write s.next_slot p s.slots;
  next_slot = s.next_slot + 1;
  registrations =
      write r (record c { pending_requests = insert message_id s.next_slot c.pending_requests })
        s.registrations;
}

-- The `finally` of `send_request`: on the registration that it was sent to.
unfoldable pub finish_request : ℕ → String → RelayServer → RelayServer
finish_request r message_id s = elim (s.registrations r) [
  | none ↦ s
  | some c ↦ record s {
    registrations =
        write r (record c { pending_requests = remove message_id c.pending_requests })
          s.registrations;
  }
]

-- `send_request` up to its wait.
unfoldable pub send_request : Bool → String → RelayMessage → RelayServer → Started × RelayServer
unfolding enter_request finish_request registered
send_request up connector_id message s = elim (registered s connector_id) [
  | none ↦ (key_error, s)
  | some (r, c) ↦
      let s' = enter_request r c message.id (future waiting) s in
      if up
      then (waits r s.next_slot, emit c.websocket (sent message) s')
      else (send_error, finish_request r message.id s')
]

-- How a wait ends.
pub data Response : Type 0 where
  response : RelayMessage → Response
  connection_error : Response
  timeout_error : Response

-- `wait_for` when it returns: the future's value or, if it still waits, the timeout, which cancels
-- it. A slot that is no future cannot be awaited; it is read as a timeout.
unfoldable pub outcome : Option Pending → Response
outcome (some (future (result message))) = response message
outcome (some (future disconnected)) = connection_error
outcome _ = timeout_error

abbrev pub cancel : Option Pending → Option Pending
cancel (some (future waiting)) = some (future cancelled)
cancel p = p

abbrev pub put_back : ℕ → Option Pending → RelayServer → RelayServer
put_back slot none s = s
put_back slot (some p) s = record s { slots = write slot p s.slots }

-- `send_request` from its wait to its end.
unfoldable pub await_response : ℕ → ℕ → String → RelayServer → Response × RelayServer
unfolding outcome finish_request
await_response r slot message_id s =
    (outcome (s.slots slot), finish_request r message_id (put_back slot (cancel (s.slots slot)) s))

unfoldable pub send_request_streaming :
    Bool → String → RelayMessage → RelayServer → Started × RelayServer
unfolding enter_request registered
send_request_streaming up connector_id message s = elim (registered s connector_id) [
  | none ↦ (key_error, s)
  | some (r, c) ↦
      let s' = enter_request r c message.id (queue []) s in
      if up then (waits r s.next_slot, emit c.websocket (sent message) s') else (send_error, s')
]

-- The socket takes the message and the close, or raises at the first.
unfoldable pub notify_approval : Bool → String → String → RelayServer → Bool × RelayServer
unfolding lookup
notify_approval up connector_id api_key s = elim (lookup connector_id s.pending_connections) [
  | none ↦ (false, s)
  | some p ↦
      if up
      then (
        true,
        emit p.websocket closed
            (emit p.websocket (sent (create_approved_message p.auth_correlation_id api_key)) s),
      )
      else (false, s)
]

unfoldable pub notify_revoke :
    Env → Bool → String → Option String → RelayServer → Bool × RelayServer
unfolding registered lookup
notify_revoke e up connector_id reason s = elim (registered s connector_id) [
  | some (r, c) ↦
      if up
      then (
        true,
        emit c.websocket closed
            (emit c.websocket (sent (create_revoked_message (append "revoke-" e.hex) reason)) s),
      )
      else (false, s)
  | none ↦ elim (lookup connector_id s.pending_connections) [
    | some p ↦ if up then (true, emit p.websocket closed s) else (false, s)
    | none ↦ (false, s)
  ]
]
