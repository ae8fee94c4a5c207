-- ===== src/RelayServer/State.antt =====
-- broker/relay_server.py: the server's state. Registrations, futures and queues are objects that
-- coroutines hold on to while the dicts change, so they are cells by reference. A socket is a
-- number, and `outbox` lists what was sent on the sockets, in order. The two callbacks are methods
-- of the model router, if they are given.
use remote_llmconnector.Shared.{
  Dict, lookup, Heap, deref, values, length, has, ℕ, String, Bool, true, false, Option, none, some,
  List, [], ◌∷◌, ◌++◌, ◌||◌,
}
use remote_llmconnector.Protocol.{RelayMessage}
use remote_llmconnector.Router.{ModelRouter}
use remote_llmconnector.ConnectorStore.Store.{ConnectorStore}

-- An `asyncio.Future` of a message: waiting, with a result, failed with a ConnectionError, or
-- cancelled by the timeout of `wait_for`.
pub data Future : Type 0 where
  waiting : Future
  result : RelayMessage → Future
  disconnected cancelled : Future

-- A value of `pending_requests`. A queue lists what was put and not yet taken; `none` is the end.
pub data Pending : Type 0 where
  future : Future → Pending
  queue : List (Option RelayMessage) → Pending

pub record ConnectorRegistration : Type 0 where
  pub connector_id : String
  pub websocket : ℕ
  pub connected_at : ℕ
  pub models : List String
  pub llm_api_key : Option String
  pub pending_requests : Dict ℕ

pub record PendingConnection : Type 0 where
  pub connector_id : String
  pub websocket : ℕ
  pub models : List String
  pub name : Option String
  pub connected_at : ℕ
  pub auth_correlation_id : String

pub data Outgoing : Type 0 where
  sent : RelayMessage → Outgoing
  closed : Outgoing

pub record RelayServer : Type 0 where
  pub connector_tokens : List String
  pub connector_configs : Dict (Option String)
  pub connector_store : Option ConnectorStore
  pub router : Option ModelRouter
  pub connectors : Dict ℕ
  pub registrations : Heap ConnectorRegistration
  pub next_registration : ℕ
  pub pending_connections : Dict PendingConnection
  pub slots : Heap Pending
  pub next_slot : ℕ
  pub running : Bool
  pub outbox : List (ℕ × Outgoing)

-- `RelayServer.__init__`
unfoldable pub init :
    List String → Dict (Option String) → Option ConnectorStore → Option ModelRouter → RelayServer
init connector_tokens connector_configs connector_store router = record {
  connector_tokens = connector_tokens;
  connector_configs = connector_configs;
  connector_store = connector_store;
  router = router;
  connectors = [];
  registrations = λ _. none;
  next_registration = 0;
  pending_connections = [];
  slots = λ _. none;
  next_slot = 0;
  running = false;
  outbox = [];
}

abbrev pub emit : ℕ → Outgoing → RelayServer → RelayServer
emit socket o s = record s { outbox = s.outbox ++ ((socket, o) ∷ []) }

-- `self._connectors.get(connector_id)`, with the reference.
unfoldable pub registered : RelayServer → String → Option (ℕ × ConnectorRegistration)
registered s connector_id = deref s.registrations (lookup connector_id s.connectors)

unfoldable pub connector_count : RelayServer → ℕ
connector_count s = length s.connectors

unfoldable pub pending_count : RelayServer → ℕ
pending_count s = length s.pending_connections

unfoldable pub get_pending_connections : RelayServer → List PendingConnection
get_pending_connections s = values s.pending_connections

-- `get_connector`: the first one.
unfoldable pub get_connector : RelayServer → Option ConnectorRegistration
get_connector s = elim s.connectors [ [] ↦ none | (i, r) ∷ _ ↦ s.registrations r ]

unfoldable pub is_connector_connected : RelayServer → String → Bool
is_connector_connected s connector_id =
    has connector_id s.connectors || has connector_id s.pending_connections

unfoldable pub start : RelayServer → RelayServer
start s = record s { running = true }

-- The loop of `stop`: every registered socket is closed, and a socket that fails to close is passed
-- over.
unfoldable pub close_all : Heap ConnectorRegistration → Dict ℕ → List (ℕ × Outgoing)
close_all regs [] = []
close_all regs ((i, r) ∷ rest) = elim (regs r) [
  | none ↦ close_all regs rest
  | some c ↦ (c.websocket, closed) ∷ close_all regs rest
]

unfoldable pub stop : RelayServer → RelayServer
unfolding close_all
stop s = record s { running = false; outbox = s.outbox ++ close_all s.registrations s.connectors }
