-- ===== src/Lib.antt =====
-- The broker of RemoteLLM: a model of its routing, its relay to the connectors, its stores of
-- connectors, users and preprompts, its OpenAI-compatible API and its web portal; and of the
-- connector: its relay client, its service of requests, and its client of the LLM server.
--
-- Connectors run beside an LLM and keep a WebSocket open to the broker. The broker authenticates
-- them, learns which models they serve, and sends each HTTP request for a model to the connector
-- that serves it; the connector's messages come back as a response or a stream. Paths below are
-- those of the repository, under src/remotellm.
--
-- The parts, each with the file that models it:
--   Router (broker/router.py): `ModelRouter`, its tables as association lists in insertion order,
--     with `get_route`, `on_connector_registered` and the other methods under their names. Routes
--     compares the routing table with a reading of the connectors alone, Steps over every order of
--     registrations and disconnections.
--   Protocol (shared/protocol.py): the messages, the `create_*` functions, and what pydantic's
--     validation of the payloads gives. Messages are modelled after JSON decoding.
--   ConnectorStore (broker/connectors.py): Document is the class and its YAML document, Store the
--     operations, Valid, Operations and Steps what every sequence of them keeps, Keys what the keys
--     open, Reload the loading of the file. The dicts `_connectors` and `_api_key_index` hold
--     references to shared objects, as in the source; the file is the list of its documents.
--   RelayServer (broker/relay_server.py): State is the server, Authentication `_authenticate` and
--     `_authenticate_with_store`, Connection `_handle_connection`, `_handle_message`, `_message_loop`
--     and a round of `_ping_loop`, Requests `send_request`, `send_request_streaming` and the
--     notifications. An operation runs from one wait for the other side (a message, a response, a timeout)
--     to the next, with the writes to sockets and the first exchange of a connection taken as a part
--     of it; Steps is the relation of one operation after another, in any order. Frame, Agreement and
--     Routed relate the server to the router, Futures, Settled, Queues, Streams, Sending and Cleanup
--     are about requests, Access about authentication.
--   BrokerApi (broker/api.py): Responses, UserKeys, Chat and Streaming follow the handlers;
--     Forwarding relates them to the relay server's states, Chunks to its queues.
--   RelayClient (connector/relay_client.py): the connector's end. `run_round` is a round of the loop
--     of `run`; Handover follows a key from the broker's store to the client and back, Rounds is
--     about the loop, Closed about a clean close of the socket, Delay about the backoff.
--   UserStore (broker/users.py): as ConnectorStore, with KeyError as a result; Reload and Names
--     are about loading the file again. `create_user` takes any name; Steps puts together calls of it
--     for names that the store does not have, which is all that the sign-in and the admin pages make.
--   PrepromptStore (broker/preprompts.py): the store, Defaults on its default, Reload on its file.
--   ConnectorService (connector/main.py, connector/llm_client.py): LlmClient is the HTTP client of the
--     LLM server, Requests `_handle_request` and its two handlers, Names and Discovery the models that
--     a connector registers, Shutdown `shutdown`. Answers and Sent are about what is sent for a request.
--     The LLM's answers are an argument, as is whether the socket takes the n-th message; a handler
--     whose message cannot be sent raises, and the handlers of the exception try theirs.
--   Portal (broker/admin.py, broker/auth.py, broker/test_auth.py): RequestLogger and State the log, the
--     sessions and the guards, Admin the handlers that change something, AdminPages and Pages what the
--     templates are given, SignIn and TestSignIn the two ways to sign in. Guards and Blocking are about
--     access, Callback and SignedIn about signing in, Approval about the approval of a connector.
--     Follows, Steps, Broker and Reachable put the portal and the relay server together: portal
--     requests, sign-ins and steps of the server in any order.
--   Journey: a chat request through broker and connector to the LLM (Outward, with the headers in
--     Headers), and its answer through connector, relay and API (Back).
--   Health (broker/health.py, connector/health.py): the documents; Ready relates readiness to the API.
--   Wiring (broker/config.py, broker/main.py, broker/__main__.py): the settings that decide how the
--     broker is put together, and its start.
--   Shared: dicts, heaps of objects, the values of documents, Boolean tests, texts by their letters.
--   Tests: concrete runs.
--
-- The relay server's router is the one that broker/main.py connects to its callbacks; a wait in
-- `send_request` ends in `await_response`, and a wait on a queue that gives no more is the timeout.
-- Whether a socket takes a message is an argument (`up`), as are the clock, the drawn digits of ids
-- and keys, and whether a file can be written (`Env`). base64, JSON decoding, the content types that
-- aiohttp accepts, Python's text of a value and its `int` of a text are fields of `Codec`. All loops
-- go over lists or dicts and are structural recursions: no fuel is used. Numbers are natural numbers,
-- as Python's integers that the program counts with; there is no machine arithmetic.
--
-- The delay before a reconnection is exact: Python's rounding of it is left out, and the base and
-- maximum are whole numbers of a unit of time.
--
-- Python's `lower` is modelled on ASCII letters, which header names and file extensions are. In
-- `shutdown`, which sleeps 30 times at most, the number of rounds is the one in the source. The sample
-- connectors of the test mode are in the router without a connection (Wiring); the statements about
-- routes are about a broker that starts without them.
--
-- Not modelled: the start and the stop of the HTTP servers, command lines, signal handlers and log
-- output; the templates of the portal and the encryption of its cookies; the OAuth client, whose
-- answers are arguments; the schemas of shared/models.py that no code reads; and within the relay
-- server the frames of a pending connector, which change nothing.

pub mod Shared
pub mod Router
pub mod Protocol
pub mod ConnectorStore
pub mod RelayServer
pub mod BrokerApi
pub mod RelayClient
pub mod ConnectorService
pub mod Portal
pub mod Journey
pub mod Health
pub mod Wiring
pub mod UserStore
pub mod PrepromptStore
pub mod Tests
