-- ===== src/Portal/Approval.antt =====
-- The approval of a connector on its way through the program: an admin's request (broker/admin.py),
-- the connector store, the relay server's notice, the connector (connector/relay_client.py), and its
-- next authentication.
use Prim.Native.String.{◌++◌ as append}
use mathlib.Core.List.{append_assoc}
use remote_llmconnector.Shared.{
  lookup, Env, ℕ, String, Bool, true, Option, some, [], ◌∷◌, ◌++◌, ◌≡◌, refl, ap, ◌∙◌,
  truthy-append,
}
use remote_llmconnector.Protocol.{create_approved_message}
use remote_llmconnector.ConnectorStore.Document.{Connector, is_pending}
use remote_llmconnector.ConnectorStore.Store.{ConnectorStore, get_by_id, approve}
use remote_llmconnector.ConnectorStore.Keys.{validate-approve}
use remote_llmconnector.RelayServer.State.{RelayServer, PendingConnection, sent, closed}
use remote_llmconnector.RelayServer.Authentication.{text, authenticate}
use remote_llmconnector.RelayServer.Access.{identity_of}
use remote_llmconnector.RelayServer.Requests.{notify_approval}
use remote_llmconnector.RelayClient.{RelayClient, auth_message}
use remote_llmconnector.RelayClient.Handover.{told, identity-approve}
use remote_llmconnector.Portal.State.{Session, Portal}
use remote_llmconnector.Portal.Admin.{
  approve_connector, approve_in, handle_approve_connector, with_store, handle_post,
}
use remote_llmconnector.Portal.Guards.{IsAdmin}
use remote_llmconnector.Portal.Blocking.{handle_post-perform}

notify_approval-waiting :
    (i key : String) (s : RelayServer) (w : PendingConnection)
    → lookup i s.pending_connections ≡ some w
    → let t = (notify_approval true i key s).1 in
      (t.outbox
        ≡ s.outbox
          ++ ((w.websocket, sent (create_approved_message w.auth_correlation_id key))
              ∷ (w.websocket, closed)
              ∷ []))
      × (t.connector_store ≡ s.connector_store)
unfolding notify_approval
notify_approval-waiting i key s w h =
    rw (h, notify_approval)
      (
        append_assoc s.outbox
            ((w.websocket, sent (create_approved_message w.auth_correlation_id key)) ∷ [])
            ((w.websocket, closed) ∷ []),
        refl,
      )

approve_in-server :
    (e : Env) (i : String) (p : Portal) (o : Option ConnectorStore) (store : ConnectorStore) (r : ℕ)
    (c : Connector)
    → o ≡ some store
    → get_by_id store i ≡ some (r, c)
    → is_pending c.status ≡ true
    → (approve_in e true i o p).1.server
      ≡ (notify_approval true i (append "ck-" e.hex) (with_store (approve e i store).1 p.server)).1
approve_in-server e i p o store r c h present pending =
    let key : (approve e i store).0 ≡ some (append "ck-" e.hex) =
      (validate-approve e store i r c present pending).0 in
    rw h (rw (key, truthy-append "ck-" e.hex refl) refl)

handle_approve_connector-server :
    (e : Env) (i : String) (p : Portal) (store : ConnectorStore) (r : ℕ) (c : Connector)
    → p.server.connector_store ≡ some store
    → get_by_id store i ≡ some (r, c)
    → is_pending c.status ≡ true
    → (handle_approve_connector e true i p).1.server
      ≡ (notify_approval true i (append "ck-" e.hex) (with_store (approve e i store).1 p.server)).1
unfolding handle_approve_connector
handle_approve_connector-server e i p store r c h present pending =
    approve_in-server e i p p.server.connector_store store r c h present pending

-- Where an admin approves a connector that is pending and connected, and its socket takes what is
-- sent: the connector is sent an APPROVED message with a new key, in answer to its own AUTH message,
-- and then the socket is closed; and a connector that has got this message and connects again, with
-- a socket that takes the reply, is admitted under its own id.
pub handle_post-approve :
    (int : String → Option ℕ) (e e' : Env) (up : Bool) (i : String) (session : Session) (p : Portal)
    (store : ConnectorStore) (r : ℕ) (c : Connector) (w : PendingConnection) (client : RelayClient)
    (socket : ℕ)
    → IsAdmin session p.user_store
    → p.server.connector_store ≡ some store
    → get_by_id store i ≡ some (r, c)
    → is_pending c.status ≡ true
    → lookup i p.server.pending_connections ≡ some w
    → let key = append "ck-" e.hex in
      let t = (handle_post int e true (approve_connector i) session p).2.server in
      (t.outbox
        ≡ p.server.outbox
          ++ ((w.websocket, sent (create_approved_message w.auth_correlation_id key))
              ∷ (w.websocket, closed)
              ∷ []))
      × (identity_of
            (authenticate e' true socket
              (text (some (auth_message e' (told e' up w.auth_correlation_id key client))))
              t).0
          ≡ some c.connector_id)
handle_post-approve int e e' up i session p store r c w client socket a h present pending waiting =
    let key = append "ck-" e.hex in
    let t = (handle_post int e true (approve_connector i) session p).2.server in
    let s = with_store (approve e i store).1 p.server in
    let done : t ≡ (notify_approval true i key s).1 =
      ap (λ q. q.server) ((handle_post-perform int e true (approve_connector i) session p a).1)
      ∙ handle_approve_connector-server e i p store r c h present pending in
    let (outbox, kept) = notify_approval-waiting i key s w waiting in
    (
      ap (λ q. q.outbox) done ∙ outbox,
      identity-approve e store i r c e' up w.auth_correlation_id client socket t present pending
          (ap (λ q. q.connector_store) done ∙ kept),
    )
