-- ===== src/RelayServer/Connection.antt =====
-- broker/relay_server.py, `_handle_connection`, `_message_loop`, `_handle_message` and `_ping_loop`:
-- the life of one connection. What runs from one wait for the connector to the next is one function.
use Prim.Native.String.{◌++◌ as append}
use remote_llmconnector.Shared.{
  Dict, lookup, insert, remove, has, Heap, write, Env, ℕ, ◌+◌, String, Bool, true, false, Option,
  none, some, List, [], ◌∷◌, ◌++◌, ◌&&◌, truthy, if◌then◌else◌,
}
use remote_llmconnector.Protocol.{MessageType, RelayMessage, create_ping_message}
use remote_llmconnector.Router
use remote_llmconnector.Router.{ModelRouter}
use remote_llmconnector.RelayServer.State.{
  RelayServer, ConnectorRegistration, waiting, result, disconnected, Pending, future, queue, sent,
  emit, registered,
}
use remote_llmconnector.RelayServer.Authentication.{
  AuthResult, AuthStatus, FirstFrame, authenticate,
}

-- Where the handler of a connection stands: it has returned, it keeps a pending connector's socket
-- open, or it serves a registered connector.
pub data Handler : Type 0 where
  ended : Handler
  holding : String → Handler
  serving : String → Handler

abbrev pub map_router : (ModelRouter → ModelRouter) → Option ModelRouter → Option ModelRouter
map_router f none = none
map_router f (some r) = some (f r)

abbrev pub id_or_empty : Option String → String
id_or_empty none = ""
id_or_empty (some s) = s

unfoldable pub hold : Env → ℕ → String → AuthResult → RelayServer → RelayServer
hold e socket connector_id r s = record s {
  pending_connections =
      insert connector_id
        (record {
          connector_id = connector_id;
          websocket = socket;
          models = r.models;
          name = r.name;
          connected_at = e.now;
          auth_correlation_id = id_or_empty r.correlation_id;
        })
        s.pending_connections;
}

unfoldable pub register : Env → ℕ → String → AuthResult → RelayServer → RelayServer
register e socket connector_id r s = record s {
  connectors = insert connector_id s.next_registration s.connectors;
  registrations =
      write s.next_registration
        (record {
          connector_id = connector_id;
          websocket = socket;
          connected_at = e.now;
          models = r.models;
          llm_api_key = r.llm_api_key;
          pending_requests = [];
        })
        s.registrations;
  next_registration = s.next_registration + 1;
  router = map_router (Router.on_connector_registered connector_id r.models r.llm_api_key) s.router;
}

unfoldable pub enter :
    Env → ℕ → AuthStatus → Option String → AuthResult → RelayServer → Handler × RelayServer
unfolding hold register
enter e socket AuthStatus.failed i r s = (ended, s)
enter e socket AuthStatus.pending none r s = (ended, s)
enter e socket AuthStatus.pending (some i) r s = (holding i, hold e socket i r s)
enter e socket AuthStatus.approved none r s = (ended, s)
enter e socket AuthStatus.approved (some i) r s = (serving i, register e socket i r s)

-- `_handle_connection` up to its message loop. A failed authentication, or the exception that
-- reading the status of None raises, ends it with nothing to clean up.
unfoldable pub open_connection : Env → Bool → ℕ → FirstFrame → RelayServer → Handler × RelayServer
unfolding authenticate enter
open_connection e up socket frame s =
    let (o, s') = authenticate e up socket frame s in
    elim o [ none ↦ (ended, s') | some r ↦ enter e socket r.status r.connector_id r s' ]

-- The loop over `pending_requests` in the clean-up.
unfoldable pub abandon : Pending → Pending
abandon (future waiting) = future disconnected
abandon (future f) = future f
abandon (queue q) = queue (q ++ (none ∷ []))

unfoldable pub abandon_all : Dict ℕ → Heap Pending → Heap Pending
unfolding abandon
abandon_all [] slots = slots
abandon_all ((i, r) ∷ rest) slots =
    abandon_all rest (elim (slots r) [ none ↦ slots | some p ↦ write r (abandon p) slots ])

unfoldable pub drop_pending : String → RelayServer → RelayServer
drop_pending connector_id s =
    if truthy connector_id && has connector_id s.pending_connections
    then record s { pending_connections = remove connector_id s.pending_connections }
    else s

unfoldable pub unregister : String → RelayServer → RelayServer
unfolding abandon_all registered
unregister connector_id s = elim (registered s connector_id) [
  | none ↦ s
  | some (r, c) ↦
      if truthy connector_id
      then record s {
        slots = abandon_all c.pending_requests s.slots;
        connectors = remove connector_id s.connectors;
        router = map_router (Router.on_connector_disconnected connector_id) s.router;
      }
      else s
]

-- The `finally` of `_handle_connection`.
unfoldable pub cleanup : String → RelayServer → RelayServer
unfolding drop_pending unregister
cleanup connector_id s = unregister connector_id (drop_pending connector_id s)

abbrev pub is_final : MessageType → Bool
is_final MessageType.response = true
is_final MessageType.error = true
is_final _ = false

abbrev pub ends_stream : MessageType → Bool
ends_stream MessageType.stream_end = true
ends_stream MessageType.error = true
ends_stream _ = false

abbrev pub is_pong : MessageType → Bool
is_pong MessageType.pong = true
is_pong _ = false

-- What a message does to the future or the queue that waits for it.
unfoldable pub deliver : RelayMessage → Pending → Pending
deliver message (future waiting) =
    if is_final message.type then future (result message) else future waiting
deliver message (future f) = future f
deliver message (queue q) =
    if ends_stream message.type
    then queue ((q ++ (some message ∷ [])) ++ (none ∷ []))
    else queue (q ++ (some message ∷ []))

-- Whether a message takes its entry out of `pending_requests`.
abbrev pub retires : RelayMessage → Pending → Bool
retires message (future f) = false
retires message (queue q) = ends_stream message.type

unfoldable pub answer :
    ℕ → ConnectorRegistration → ℕ → Pending → RelayMessage → RelayServer → RelayServer
unfolding deliver
answer r c slot p message s = record s {
  slots = write slot (deliver message p) s.slots;
  registrations =
      if retires message p
      then write r (record c { pending_requests = remove message.id c.pending_requests })
          s.registrations
      else s.registrations;
}

unfoldable pub handle_message : String → RelayMessage → RelayServer → RelayServer
unfolding answer registered
handle_message connector_id message s = elim (registered s connector_id) [
  | none ↦ s
  | some (r, c) ↦ if is_pong message.type then s else (elim (lookup message.id c.pending_requests) [
    | none ↦ s
    | some slot ↦ elim (s.slots slot) [ none ↦ s | some p ↦ answer r c slot p message s ]
  ])
]

-- A frame on an open socket.
pub data Frame : Type 0 where
  text : Option RelayMessage → Frame
  error : Frame
  close : Frame
  unexpected : Frame

-- `_message_loop`: a text that does not read as a message is logged and passed over.
unfoldable pub message_loop : String → List Frame → RelayServer → RelayServer
unfolding handle_message
message_loop connector_id [] s = s
message_loop connector_id (text none ∷ frames) s = message_loop connector_id frames s
message_loop connector_id (text (some message) ∷ frames) s =
    message_loop connector_id frames (handle_message connector_id message s)
message_loop connector_id (error ∷ frames) s = s
message_loop connector_id (close ∷ frames) s = s
message_loop connector_id (unexpected ∷ frames) s = message_loop connector_id frames s

-- One round of `_ping_loop` after its sleep: whether it goes on, and what it sent.
unfoldable pub ping : Env → Bool → String → RelayServer → Bool × RelayServer
unfolding registered
ping e up connector_id s = elim (registered s connector_id) [
  | none ↦ (false, s)
  | some (r, c) ↦
      if up
      then (s.running, emit c.websocket (sent (create_ping_message (append "ping-" e.hex))) s)
      else (false, s)
]
