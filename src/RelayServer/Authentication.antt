-- ===== src/RelayServer/Authentication.antt =====
-- broker/relay_server.py, `_authenticate` and `_authenticate_with_store`. `up` says whether the
-- socket takes what is sent; an exception anywhere closes the socket and fails the attempt, and what
-- was changed before it stays changed.
use Prim.Native.String.{◌++◌ as append}
use remote_llmconnector.Shared.{
  Dict, lookup, Env, contains, ℕ, String, Bool, true, false, not, Option, none, some, List, [], ◌∷◌,
  ◌&&◌, ◌==◌, truthy, if◌then◌else◌,
}
use remote_llmconnector.Protocol.{
  MessageType, RelayMessage, AuthPayload, validate_auth, create_auth_ok_message,
  create_auth_fail_message, create_pending_message,
}
use remote_llmconnector.ConnectorStore.Document.{ConnectorStatus, Connector}
use remote_llmconnector.ConnectorStore.Store.{
  ConnectorStore, get_by_api_key, create_pending, update_models, update_last_connected,
}
use remote_llmconnector.RelayServer.State.{RelayServer, sent, closed, emit}

pub data AuthStatus : Type 0 where
  approved pending failed : AuthStatus

pub record AuthResult : Type 0 where
  pub status : AuthStatus
  pub connector_id : Option String
  pub models : List String
  pub llm_api_key : Option String
  pub name : Option String
  pub correlation_id : Option String

abbrev pub failure : AuthResult
failure = record {
  status = failed;
  connector_id = none;
  models = [];
  llm_api_key = none;
  name = none;
  correlation_id = none;
}

-- What the socket gives within the timeout: nothing, a text that reads as a message or not, a close
-- or an error, or a frame of another kind.
pub data FirstFrame : Type 0 where
  timeout : FirstFrame
  text : Option RelayMessage → FirstFrame
  close_or_error : FirstFrame
  unexpected : FirstFrame

-- `models != connector.models`
unfoldable pub same_models : List String → List String → Bool
same_models [] [] = true
same_models (x ∷ xs) (y ∷ ys) = (x == y) && same_models xs ys
same_models _ _ = false

-- The last lines of both functions on failure: a reply, if the socket takes it, and a close.
abbrev pub reject : Bool → ℕ → RelayMessage → RelayServer → AuthResult × RelayServer
reject up socket message s = (
  failure,
  if up then emit socket closed (emit socket (sent message) s) else emit socket closed s,
)

-- A new pending connector, and the message that says so.
unfoldable pub await_approval :
    Env
    → Bool
    → ℕ
    → RelayMessage
    → AuthPayload
    → ConnectorStore
    → RelayServer
    → AuthResult × RelayServer
await_approval e up socket message payload store s =
    let (c, store') = create_pending e payload.models payload.name store in
    let s' = record s { connector_store = some store' } in
    if up
    then (
      record {
        status = pending;
        connector_id = some c.connector_id;
        models = payload.models;
        llm_api_key = none;
        name = payload.name;
        correlation_id = some message.id;
      },
      emit socket (sent (create_pending_message message.id c.connector_id none)) s',
    )
    else (failure, emit socket closed s')

-- An approved connector: AUTH_OK, then the store's record of its models and of the time.
unfoldable pub admit :
    Env
    → Bool
    → ℕ
    → RelayMessage
    → AuthPayload
    → ConnectorStore
    → ℕ
    → Connector
    → RelayServer
    → AuthResult × RelayServer
unfolding same_models
admit e up socket message payload store r c s =
    let offered =
      if same_models payload.models c.models
      then store
      else (update_models e c.connector_id payload.models store).1 in
    if up
    then (
      record {
        status = approved;
        connector_id = some c.connector_id;
        models = payload.models;
        llm_api_key = none;
        name = c.name;
        correlation_id = some message.id;
      },
      record (emit socket (sent (create_auth_ok_message message.id c.connector_id)) s) {
        connector_store = some (update_last_connected e r offered);
      },
    )
    else (failure, emit socket closed s)

-- The branches on the status of the connector that the key belongs to.
unfoldable pub decide :
    Env
    → Bool
    → ℕ
    → RelayMessage
    → AuthPayload
    → ConnectorStore
    → ℕ
    → Connector
    → ConnectorStatus
    → RelayServer
    → AuthResult × RelayServer
unfolding admit await_approval
decide e up socket message payload store r c ConnectorStatus.approved s =
    admit e up socket message payload store r c s
decide e up socket message payload store r c ConnectorStatus.revoked s =
    reject up socket (create_auth_fail_message message.id "API key has been revoked") s
decide e up socket message payload store r c ConnectorStatus.pending s =
    await_approval e up socket message payload store s

-- `if payload.token:`, and the key's connector.
abbrev pub presented : Option String → ConnectorStore → Option (ℕ × Connector)
presented none store = none
presented (some token) store = if truthy token then get_by_api_key store token else none

unfoldable pub authenticate_with_store :
    Env
    → Bool
    → ℕ
    → RelayMessage
    → AuthPayload
    → ConnectorStore
    → RelayServer
    → AuthResult × RelayServer
unfolding decide get_by_api_key
authenticate_with_store e up socket message payload store s = elim (presented payload.token store) [
  | none ↦ await_approval e up socket message payload store s
  | some (r, c) ↦ decide e up socket message payload store r c c.status s
]

-- `payload.token not in self.connector_tokens`; None is in no list of tokens.
abbrev pub knows_token : Option String → List String → Bool
knows_token none tokens = false
knows_token (some token) tokens = contains token tokens

-- `self.connector_configs.get(payload.token) if payload.token else None`
abbrev pub configured_key : Option String → Dict (Option String) → Option String
configured_key none configs = none
configured_key (some token) configs =
    if truthy token then (elim (lookup token configs) [ none ↦ none | some k ↦ k ]) else none

abbrev pub nonempty {ℓ} : {A : Type ℓ} → List A → Bool
nonempty [] = false
nonempty (x ∷ xs) = true

-- Legacy mode: the list of tokens, where an empty list admits everybody.
unfoldable pub authenticate_legacy :
    Env → Bool → ℕ → RelayMessage → AuthPayload → RelayServer → AuthResult × RelayServer
unfolding lookup
authenticate_legacy e up socket message payload s =
    let connector_id = append "conn-" e.hex in
    if nonempty s.connector_tokens && not (knows_token payload.token s.connector_tokens)
    then reject up socket (create_auth_fail_message message.id "Invalid token") s
    else if up
    then (
      record {
        status = approved;
        connector_id = some connector_id;
        models = payload.models;
        llm_api_key = configured_key payload.token s.connector_configs;
        name = payload.name;
        correlation_id = some message.id;
      },
      emit socket (sent (create_auth_ok_message message.id connector_id)) s,
    )
    else (failure, emit socket closed s)

unfoldable pub authenticate_payload :
    Env
    → Bool
    → ℕ
    → RelayMessage
    → AuthPayload
    → Option ConnectorStore
    → RelayServer
    → AuthResult × RelayServer
unfolding authenticate_with_store authenticate_legacy
authenticate_payload e up socket message payload none s =
    authenticate_legacy e up socket message payload s
authenticate_payload e up socket message payload (some store) s =
    authenticate_with_store e up socket message payload store s

abbrev pub is_auth : MessageType → Bool
is_auth MessageType.auth = true
is_auth _ = false

-- `_authenticate`; `none` is the result None, which the caller does not expect.
unfoldable pub authenticate :
    Env → Bool → ℕ → FirstFrame → RelayServer → Option AuthResult × RelayServer
unfolding authenticate_payload
authenticate e up socket timeout s = (some failure, emit socket closed s)
authenticate e up socket (text none) s = (some failure, emit socket closed s)
authenticate e up socket (text (some message)) s =
    if is_auth message.type
    then (elim (validate_auth message.payload) [
      | none ↦ (some failure, emit socket closed s)
      | some payload ↦
          let (r, s') = authenticate_payload e up socket message payload s.connector_store s in
          (some r, s')
    ])
    else let (r, s') =
        reject up socket (create_auth_fail_message message.id "Expected AUTH message") s in
      (some r, s')
authenticate e up socket close_or_error s = (none, s)
authenticate e up socket unexpected s = (none, s)
