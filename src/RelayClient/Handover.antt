-- ===== src/RelayClient/Handover.antt =====
-- The hand-over of a key from the broker's store through connector/relay_client.py and back to the
-- broker's authentication; and its end by a revocation.
use Prim.Native.String.{◌++◌ as append}
use remote_llmconnector.Shared.{
  Env, ℕ, String, Bool, true, Option, none, some, ◌≡◌, refl, ◌∙◌, arith, ◌&&◌, if◌then◌else◌,
  truthy-append,
}
use remote_llmconnector.Protocol.{
  MessageType, create_auth_message, create_approved_message, create_revoked_message,
}
use remote_llmconnector.Protocol.Roundtrip.{validate-create_auth, validate-create_workflow}
use remote_llmconnector.ConnectorStore.Document.{Connector, is_pending}
use remote_llmconnector.ConnectorStore.Store.{ConnectorStore, get_by_id, approve}
use remote_llmconnector.ConnectorStore.Keys.{validate-approve}
use remote_llmconnector.RelayServer.State.{RelayServer}
use remote_llmconnector.RelayServer.Authentication.{text, authenticate, is_auth}
use remote_llmconnector.RelayServer.Access.{
  identity_of, frame_owner, key_owner, identity-authenticate,
}
use remote_llmconnector.RelayClient.{
  RelayClient, disconnected, auth_message, save_credentials, clear_credentials, drop_socket,
  handle_approved, handle_revoked, handle_message,
}

-- The client after the message of an approval, and after that of a revocation.
abbrev pub told : Env → Bool → String → String → RelayClient → RelayClient
told e up correlation_id key c =
    handle_message e up MessageType.approved (create_approved_message correlation_id key) c

abbrev pub turned_away : Env → Bool → String → Option String → RelayClient → RelayClient
turned_away e up correlation_id reason c =
    handle_message e up MessageType.revoked (create_revoked_message correlation_id reason) c

-- An APPROVED message makes the client keep the key, in the credentials file too where it has one
-- that can be written, and give up its socket, so that the next round of `run` connects at once.
pub handle_message-approved :
    (e : Env) (up : Bool) (a key : String) (c : RelayClient) (socket : ℕ)
    → c.ws ≡ some socket
    → let t = told e up a key c in
      (t.broker_token ≡ some key)
      × (t.ws ≡ none)
      × (t.state ≡ disconnected)
      × (t.reconnect_attempt ≡ 0)
      × (t.credentials ≡ (if c.has_credentials_file && e.writable then some key else c.credentials))
unfolding handle_message handle_approved save_credentials drop_socket
handle_message-approved e up a key c socket h =
    rw ((validate-create_workflow a a key none none).1) (ground arith)

approved-token :
    (e : Env) (up : Bool) (a key : String) (c : RelayClient)
    → (told e up a key c).broker_token ≡ some key
unfolding handle_message handle_approved save_credentials drop_socket
approved-token e up a key c = rw ((validate-create_workflow a a key none none).1) (ground arith)

revoked-token :
    (e : Env) (up : Bool) (a : String) (reason : Option String) (c : RelayClient)
    → (turned_away e up a reason c).broker_token ≡ none
unfolding handle_message handle_revoked clear_credentials drop_socket
revoked-token e up a reason c = rw ((validate-create_workflow a a a none reason).2) (ground arith)

-- Whom a client's AUTH message is admitted as: the owner of its token.
frame_owner-auth_message :
    (e : Env) (c : RelayClient) (store : ConnectorStore)
    → frame_owner store (text (some (auth_message e c))) ≡ key_owner store c.broker_token
frame_owner-auth_message e c store =
    let is : is_auth (auth_message e c).type ≡ true = unfold create_auth_message in refl in
    rw is (
      rw
        (validate-create_auth (append "auth-" e.hex) c.broker_token (some c.models)
          c.connector_name)
        refl)

-- A pending connector that the admin approves, and that is sent the key in an APPROVED message, is
-- admitted under its own identity when its client connects again, the socket taking the reply.
pub identity-approve :
    (e : Env) (s : ConnectorStore) (i : String) (r : ℕ) (c : Connector) (e' : Env) (up : Bool)
    (a : String) (client : RelayClient) (socket : ℕ) (t : RelayServer)
    → get_by_id s i ≡ some (r, c)
    → is_pending c.status ≡ true
    → t.connector_store ≡ some (approve e i s).1
    → identity_of
        (authenticate e' true socket
          (text (some (auth_message e' (told e' up a (append "ck-" e.hex) client))))
          t).0
      ≡ some c.connector_id
identity-approve e s i r c e' up a client socket t found p h =
    let key = append "ck-" e.hex in
    let store = (approve e i s).1 in
    let after = told e' up a key client in
    let known = (validate-approve e s i r c found p).1 in
    identity-authenticate e' true socket (text (some (auth_message e' after))) t store h
    ∙ frame_owner-auth_message e' after store
    ∙ rw (approved-token e' up a key client) (rw (truthy-append "ck-" e.hex refl) (rw known refl))

-- A client that was told of the revocation of its key is not admitted when it connects again,
-- whatever the broker's store holds: it has no key any more.
pub identity-revoked :
    (e : Env) (up up' : Bool) (a : String) (reason : Option String) (client : RelayClient)
    (socket : ℕ) (t : RelayServer) (store : ConnectorStore)
    → t.connector_store ≡ some store
    → identity_of
        (authenticate e up' socket
          (text (some (auth_message e (turned_away e up a reason client))))
          t).0
      ≡ none
identity-revoked e up up' a reason client socket t store h =
    let after = turned_away e up a reason client in
    let no_owner : frame_owner store (text (some (auth_message e after))) ≡ none =
      frame_owner-auth_message e after store ∙ rw (revoked-token e up a reason client) refl in
    identity-authenticate e up' socket (text (some (auth_message e after))) t store h
    ∙ rw no_owner (ground arith)
