-- ===== src/RelayServer/Access.antt =====
-- Who gets in: an authentication under the approval workflow ends in an approved connection exactly
-- for a key that the connector store accepts.
use remote_llmconnector.Shared.{
  Env, ℕ, String, Bool, Option, none, some, ◌≡◌, arith, truthy, Option-cases, Bool-cases, inl, inr,
  ◌&&◌, sym, ◌∙◌, if◌then◌else◌,
}
use remote_llmconnector.Protocol.{RelayMessage, AuthPayload, validate_auth}
use remote_llmconnector.ConnectorStore.Document.{ConnectorStatus, Connector, is_approved}
use remote_llmconnector.ConnectorStore.Store.{ConnectorStore, validate_api_key}
use remote_llmconnector.RelayServer.State.{RelayServer}
use remote_llmconnector.RelayServer.Authentication.{
  AuthStatus, AuthResult, FirstFrame, timeout, text, close_or_error, unexpected, is_auth, presented,
  await_approval, decide, authenticate_with_store, authenticate_payload, authenticate,
}

-- The identity under which a result admits a connection.
abbrev pub identity : AuthStatus → Option String → Option String
identity AuthStatus.approved i = i
identity _ i = none

abbrev pub identity_of : Option AuthResult → Option String
identity_of none = none
identity_of (some r) = identity r.status r.connector_id

-- The connector whose key a frame presents, if the store accepts the key.
abbrev pub owner : Option (ℕ × Connector) → Option String
owner none = none
owner (some (r, c)) = some c.connector_id

abbrev pub key_owner : ConnectorStore → Option String → Option String
key_owner store none = none
key_owner store (some token) = if truthy token then owner (validate_api_key store token) else none

abbrev pub payload_owner : ConnectorStore → Option AuthPayload → Option String
payload_owner store none = none
payload_owner store (some p) = key_owner store p.token

abbrev pub frame_owner : ConnectorStore → FirstFrame → Option String
frame_owner store (text (some m)) =
    if is_auth m.type then payload_owner store (validate_auth m.payload) else none
frame_owner store _ = none

module _ (up : Bool) where
  owner-unknown :
      (token : Option String) (store : ConnectorStore)
      → presented token store ≡ none
      → (if up then key_owner store token else none) ≡ none
  unfolding validate_api_key
  owner-unknown none store h = ground arith
  owner-unknown (some token) store h = ground arith

  owner-known :
      (token : Option String) (store : ConnectorStore) (r : ℕ) (c : Connector)
      → presented token store ≡ some (r, c)
      → (if up then key_owner store token else none)
        ≡ (if up && is_approved c.status then some c.connector_id else none)
  unfolding validate_api_key
  owner-known none store r c h = cc
  owner-known (some token) store r c h = ground arith

module _ (e : Env) (up : Bool) (socket : ℕ) where
  module _ (m : RelayMessage) (p : AuthPayload) (store : ConnectorStore) (s : RelayServer) where
    identity-await_approval : identity_of (some (await_approval e up socket m p store s).0) ≡ none
    unfolding await_approval
    identity-await_approval = ground arith

    identity-decide :
        (r : ℕ) (c : Connector) (st : ConnectorStatus)
        → identity_of (some (decide e up socket m p store r c st s).0)
          ≡ (if up && is_approved st then some c.connector_id else none)
    unfolding decide
    identity-decide r c ConnectorStatus.approved = ground arith
    identity-decide r c ConnectorStatus.revoked = ground arith
    identity-decide r c ConnectorStatus.pending = ground (arith, identity-await_approval)

    identity-with_store :
        identity_of (some (authenticate_with_store e up socket m p store s).0)
        ≡ (if up then key_owner store p.token else none)
    unfolding authenticate_with_store validate_api_key
    identity-with_store = elim (Option-cases (presented p.token store)) [
      | inl h ↦
          rw (h, authenticate_with_store)
            (identity-await_approval ∙ sym (owner-unknown up p.token store h))
      | inr ((r, c), h) ↦
          rw (h, authenticate_with_store)
            (identity-decide r c c.status ∙ sym (owner-known up p.token store r c h))
    ]

-- Under the approval workflow a connection is admitted exactly where its first frame is an AUTH
-- message with a key that the store accepts and the socket takes the reply, and then under the
-- identity of the key's connector.
pub identity-authenticate :
    (e : Env) (up : Bool) (socket : ℕ) (frame : FirstFrame) (s : RelayServer)
    (store : ConnectorStore)
    → s.connector_store ≡ some store
    → identity_of (authenticate e up socket frame s).0
      ≡ (if up then frame_owner store frame else none)
unfolding authenticate
identity-authenticate e up socket timeout s store h = ground arith
identity-authenticate e up socket (text none) s store h = ground arith
identity-authenticate e up socket (text (some m)) s store h = elim (Bool-cases (is_auth m.type)) [
  | inl a ↦ elim (Option-cases (validate_auth m.payload)) [
    | inl v ↦ rw (a, v) (ground arith)
    | inr (p, v) ↦
        rw (a, v, h)
          (unfold authenticate_payload in
            identity-with_store e up socket m p store (record s { connector_store = some store }))
  ]
  | inr a ↦ rw a (ground arith)
]
identity-authenticate e up socket close_or_error s store h = ground arith
identity-authenticate e up socket unexpected s store h = ground arith
