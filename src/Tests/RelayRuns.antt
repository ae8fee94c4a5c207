-- ===== src/Tests/RelayRuns.antt =====
-- The relay server at concrete inputs.
use remote_llmconnector.Shared.{
  lookup, insert, write, ℕ, true, false, none, some, List, [], ◌∷◌, ◌≡◌, ◌≢◌, refl, arith, eq_iff,
  contains, if◌then◌else◌, eqb,
}
use remote_llmconnector.Protocol.{
  RelayMessage, create_auth_message, create_request_message, create_response_message,
  create_stream_chunk_message, create_stream_end_message, validate_auth,
}
use remote_llmconnector.Router
use remote_llmconnector.Router.{
  ModelRouter, get_route, on_connector_registered, build_routes, add_connectors, add_models,
}
use remote_llmconnector.ConnectorStore.Store as ConnectorStores
use remote_llmconnector.ConnectorStore.Store.{ConnectorStore}
use remote_llmconnector.RelayServer.State
use remote_llmconnector.RelayServer.State.{
  RelayServer, ConnectorRegistration, Future, future, queue, disconnected, registered,
}
use remote_llmconnector.RelayServer.Authentication.{
  AuthResult, AuthStatus, FirstFrame, text, authenticate, authenticate_payload, authenticate_legacy,
}
use remote_llmconnector.RelayServer.Connection.{
  register, enter, open_connection, cleanup, handle_message,
}
use remote_llmconnector.RelayServer.Requests.{enter_request, send_request, send_request_streaming}
use remote_llmconnector.RelayServer.Steps.{Reach, here, next, opened, requested, cleaned}
use remote_llmconnector.RelayServer.Routed.{init-Agrees, Reach-Agrees, get_route-registered}
use remote_llmconnector.RelayServer.Futures.{IsBounded}
use remote_llmconnector.RelayServer.Settled.{settled-Reach}
use remote_llmconnector.RelayServer.Queues.{Waits}
use remote_llmconnector.RelayServer.Cleanup.{
  is_settled, is_settled-cleanup, handle_message-cleanup_newer,
}
use remote_llmconnector.RelayServer.Access.{identity_of, frame_owner, identity-authenticate}
use remote_llmconnector.Tests.Data.{env}

abbrev fresh : RelayServer
fresh = State.init [] [] none (some Router.init)

-- A connector that offers "m1" connects.
abbrev hello : FirstFrame
hello = text (some (create_auth_message "auth-1" none (some ("m1" ∷ [])) none))

abbrev pub joined : RelayServer
joined = (open_connection env true 7 hello fresh).1

pub joined-Reach : Reach fresh joined
joined-Reach = next here (opened env true 7 hello)

abbrev pub joined_router : ModelRouter
joined_router = on_connector_registered "conn-a1" ("m1" ∷ []) none Router.init

pub joined_router_lem : joined.router ≡ some joined_router
unfolding open_connection authenticate authenticate_payload authenticate_legacy enter register
    validate_auth create_auth_message lookup State.init
joined_router_lem = refl

pub m1_route : get_route joined_router "m1" ≡ some ("conn-a1", none)
unfolding get_route on_connector_registered build_routes add_connectors add_models lookup insert
m1_route = refl

abbrev pub seat : ConnectorRegistration
seat = record {
  connector_id = "conn-a1";
  websocket = 7;
  connected_at = 5;
  models = "m1" ∷ [];
  llm_api_key = none;
  pending_requests = [];
}

pub joined_known : registered joined "conn-a1" ≡ some (0, seat)
unfolding open_connection authenticate authenticate_payload authenticate_legacy enter register
    validate_auth create_auth_message lookup State.init registered insert write
joined_known = refl

get_route-registered_example :
    (q : ℕ) × (c : ConnectorRegistration) × (registered joined "conn-a1" ≡ some (q, c))
    × (contains "m1" c.models ≡ true)
    × (c.llm_api_key ≡ none)
get_route-registered_example =
    get_route-registered [] [] none joined_router "m1" "conn-a1" none joined-Reach joined_router_lem
      m1_route

-- A request on its way.
abbrev request : RelayMessage
request = create_request_message "req-1" "POST" "/v1/chat/completions" [] "" none

abbrev pub asked : RelayServer
asked = (send_request true "conn-a1" request joined).1

pub asked_known :
    registered asked "conn-a1" ≡ some (0, record seat { pending_requests = ("req-1", 0) ∷ [] })
unfolding open_connection authenticate authenticate_payload authenticate_legacy enter register
    validate_auth create_auth_message create_request_message lookup State.init registered insert
    write send_request enter_request
asked_known = refl

pub asked_entry : lookup {V = ℕ} "req-1" (("req-1", 0) ∷ []) ≡ some 0
unfolding lookup
asked_entry = refl

asked_slot : asked.slots 0 ≢ none
unfolding open_connection authenticate authenticate_payload authenticate_legacy enter register
    create_request_message lookup State.init registered insert write send_request enter_request
    create_auth_message validate_auth
asked_slot = λ h. cc h

is_settled-cleanup_example : is_settled ((cleanup "conn-a1" asked).slots 0) ≡ true
is_settled-cleanup_example =
    is_settled-cleanup asked "conn-a1" "req-1" 0 0
      (record seat { pending_requests = ("req-1", 0) ∷ [] }) refl asked_known asked_entry asked_slot

-- The connector connects again under its identity.
abbrev again : AuthResult
again = record {
  status = AuthStatus.approved;
  connector_id = some "conn-a1";
  models = "m1" ∷ [];
  llm_api_key = none;
  name = none;
  correlation_id = some "auth-2";
}

abbrev reply : RelayMessage
reply = create_response_message "req-1" 200 [] ""

handle_message-cleanup_newer_example :
    let u = register env 8 "conn-a1" again joined in
    let t = (send_request true "conn-a1" request u).1 in
    (registered t "conn-a1" ≢ none)
    × (registered (cleanup "conn-a1" t) "conn-a1" ≡ none)
    × ((cleanup "conn-a1" t).slots u.next_slot ≡ some (future disconnected))
    × (handle_message "conn-a1" reply (cleanup "conn-a1" t) ≡ cleanup "conn-a1" t)
handle_message-cleanup_newer_example =
    handle_message-cleanup_newer joined env 8 "conn-a1" again request reply
      (Reach-Agrees joined-Reach (init-Agrees [] [] none)) refl

-- A request that was given up, and a later one to the same connector.
abbrev given_up : RelayServer
given_up = record joined {
  slots = λ q. if eqb 0 q then some (future disconnected) else none;
  next_slot = 1;
}

given_up-IsBounded : IsBounded given_up
given_up-IsBounded = record { bound = λ q p h. ground arith }

abbrev later : RelayServer
later = cleanup "conn-a1" (send_request true "conn-a1" request given_up).1

settled-Reach_example : later.slots 0 ≡ some (future disconnected)
settled-Reach_example =
    settled-Reach 0 disconnected given_up-IsBounded
      (next (next here (requested true "conn-a1" request)) (cleaned "conn-a1")) refl refl

-- A streaming request on its way.
abbrev pub streaming : RelayServer
streaming = (send_request_streaming true "conn-a1" request joined).1

streaming_known :
    registered streaming "conn-a1" ≡ some (0, record seat { pending_requests = ("req-1", 0) ∷ [] })
unfolding open_connection authenticate authenticate_payload authenticate_legacy enter register
    validate_auth create_auth_message create_request_message lookup State.init registered insert
    write send_request_streaming enter_request
streaming_known = refl

streaming_slot : streaming.slots 0 ≡ some (queue [])
unfolding open_connection authenticate authenticate_payload authenticate_legacy enter register
    validate_auth create_auth_message create_request_message lookup State.init registered insert
    write send_request_streaming enter_request
streaming_slot = refl

pub streaming-Waits : Waits streaming "conn-a1" "req-1" 0 []
unfolding lookup
streaming-Waits = record {
  r = 0;
  c = record seat { pending_requests = ("req-1", 0) ∷ [] };
  is_registered = streaming_known;
  entry = asked_entry;
  slot = streaming_slot;
  separate = record { separate = λ j k q f g. ground (arith, eq_iff "req-1" j, eq_iff "req-1" k) };
}

-- Two chunks, one of them empty, between them one for another request; the end, and a late chunk.
abbrev pub answers : List RelayMessage
answers =
    create_stream_chunk_message "req-1" "Hi" false
    ∷ create_stream_chunk_message "req-9" "no" false
    ∷ create_stream_chunk_message "req-1" "" false
    ∷ create_stream_end_message "req-1"
    ∷ create_stream_chunk_message "req-1" "late" false
    ∷ []

-- A connector with an approved key.
abbrev keys : ConnectorStore
keys =
    (ConnectorStores.approve env "conn-a1"
      (ConnectorStores.create_pending env ("m1" ∷ []) none (ConnectorStores.empty true)).1).1

abbrev knock : FirstFrame
knock = text (some (create_auth_message "auth-1" (some "ck-a1") (some ("m1" ∷ [])) none))

identity-authenticate_example :
    identity_of (authenticate env true 7 knock (State.init [] [] (some keys) none)).0
    ≡ frame_owner keys knock
unfolding State.init
identity-authenticate_example =
    identity-authenticate env true 7 knock (State.init [] [] (some keys) none) keys refl
