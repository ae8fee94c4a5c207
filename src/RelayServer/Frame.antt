-- ===== src/RelayServer/Frame.antt =====
-- What authenticating a connector leaves alone: everything but the connector store and the outbox.
use remote_llmconnector.Shared.{
  Env, ℕ, Bool, Option, none, some, ◌≡◌, refl, arith, Option-cases, Bool-cases, inl, inr,
}
use remote_llmconnector.Protocol.{RelayMessage, AuthPayload, validate_auth}
use remote_llmconnector.ConnectorStore.Document.{ConnectorStatus, Connector}
use remote_llmconnector.ConnectorStore.Store.{ConnectorStore}
use remote_llmconnector.RelayServer.State.{RelayServer}
use remote_llmconnector.RelayServer.Authentication.{
  FirstFrame, timeout, text, close_or_error, unexpected, is_auth, presented, await_approval, decide,
  authenticate_with_store, authenticate_payload, authenticate,
}

pub record SameRegistry (s t : RelayServer) : Type 0 where
  pub router : t.router ≡ s.router
  pub connectors : t.connectors ≡ s.connectors
  pub registrations : t.registrations ≡ s.registrations
  pub next_registration : t.next_registration ≡ s.next_registration
  pub pending_connections : t.pending_connections ≡ s.pending_connections
  pub slots : t.slots ≡ s.slots
  pub next_slot : t.next_slot ≡ s.next_slot

SameRegistry-refl : (s : RelayServer) → SameRegistry s s
SameRegistry-refl s = record {
  router = refl;
  connectors = refl;
  registrations = refl;
  next_registration = refl;
  pending_connections = refl;
  slots = refl;
  next_slot = refl;
}

module _ (e : Env) (up : Bool) (socket : ℕ) where
  module _ (m : RelayMessage) (p : AuthPayload) (s : RelayServer) where
    await_approval-same :
        (store : ConnectorStore) → SameRegistry s (await_approval e up socket m p store s).1
    unfolding await_approval
    await_approval-same store = ground arith

    decide-same :
        (store : ConnectorStore) (r : ℕ) (c : Connector) (st : ConnectorStatus)
        → SameRegistry s (decide e up socket m p store r c st s).1
    unfolding decide
    decide-same store r c ConnectorStatus.approved = ground arith
    decide-same store r c ConnectorStatus.revoked = ground arith
    decide-same store r c ConnectorStatus.pending = await_approval-same store

    payload-same :
        (o : Option ConnectorStore) → SameRegistry s (authenticate_payload e up socket m p o s).1
    unfolding authenticate_payload
    payload-same none = ground arith
    payload-same (some store) = elim (Option-cases (presented p.token store)) [
      | inl h ↦ rw (h, authenticate_with_store) (await_approval-same store)
      | inr ((r, c), h) ↦ rw (h, authenticate_with_store) (decide-same store r c c.status)
    ]

  pub authenticate-same :
      (frame : FirstFrame) (s : RelayServer) → SameRegistry s (authenticate e up socket frame s).1
  unfolding authenticate
  authenticate-same timeout s = ground arith
  authenticate-same (text none) s = ground arith
  authenticate-same (text (some m)) s = elim (Bool-cases (is_auth m.type)) [
    | inl a ↦ elim (Option-cases (validate_auth m.payload)) [
      | inl h ↦ rw (a, h) (ground arith)
      | inr (p, h) ↦ rw (a, h) (payload-same m p s s.connector_store)
    ]
    | inr a ↦ rw a (ground arith)
  ]
  authenticate-same close_or_error s = SameRegistry-refl s
  authenticate-same unexpected s = SameRegistry-refl s
