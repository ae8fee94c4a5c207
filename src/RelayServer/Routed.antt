-- ===== src/RelayServer/Routed.antt =====
-- The agreement of server and router under every transition, and what it means for a request.
use remote_llmconnector.Shared.{
  Dict, lookup, insert, remove, write, ◌+◌, Env, ℕ, String, Bool, true, Option, none, some, List,
  [], ◌≡◌, refl, sym, ap, subst, ◌∙◌, arith, contains, Bool-cases, Option-cases, inl, inr,
}
use remote_llmconnector.Protocol.{RelayMessage}
use remote_llmconnector.Router
use remote_llmconnector.Router.{ModelRouter, ConnectorInfo, get_route}
use remote_llmconnector.Router.Routes.{IsBuilt, init-IsBuilt, get_route-found}
use remote_llmconnector.ConnectorStore.Store.{ConnectorStore}
use remote_llmconnector.RelayServer.State
use remote_llmconnector.RelayServer.State.{
  RelayServer, ConnectorRegistration, Pending, future, queue, waiting, Outgoing, sent, emit,
  registered, start, stop,
}
use remote_llmconnector.RelayServer.Authentication.{
  AuthResult, AuthStatus, FirstFrame, authenticate,
}
use remote_llmconnector.RelayServer.Connection.{
  open_connection, enter, hold, cleanup, drop_pending, handle_message, answer, deliver, retires,
  ping, is_pong,
}
use remote_llmconnector.RelayServer.Requests.{
  enter_request, finish_request, send_request, await_response, send_request_streaming, put_back,
  cancel, notify_approval, notify_revoke,
}
use remote_llmconnector.RelayServer.Steps.{
  Step, Reach, started, stopped, opened, messaged, cleaned, pinged, requested, responded, streamed,
  notified, revoked, administered, here, next,
}
use remote_llmconnector.RelayServer.Frame.{authenticate-same}
use remote_llmconnector.RelayServer.Agreement.{
  Agrees, register-Agrees, drop_pending-Agrees, unregister-Agrees, write-Agrees,
}

module _ (s : RelayServer) (a : Agrees s) where
  same-Agrees :
      (t : RelayServer)
      → t.router ≡ s.router
      → t.connectors ≡ s.connectors
      → t.registrations ≡ s.registrations
      → t.next_registration ≡ s.next_registration
      → Agrees t
  unfolding registered
  same-Agrees t f g h k = record {
    known = λ r i e. rw (g, h) (a.known r i (sym f ∙ e));
    built = λ r e. a.built r (sym f ∙ e);
    held = λ i q e. ground (arith, a.held i q);
    bound = λ q c e. ground (arith, a.bound q c);
  }

enter-Agrees :
    (e : Env) (socket : ℕ) (st : AuthStatus) (i : Option String) (r : AuthResult) (s : RelayServer)
    → Agrees s
    → Agrees (enter e socket st i r s).1
unfolding enter
enter-Agrees e socket AuthStatus.failed i r s a = a
enter-Agrees e socket AuthStatus.pending none r s a = a
enter-Agrees e socket AuthStatus.pending (some i) r s a =
    same-Agrees s a (hold e socket i r s) (ground arith) (ground arith) (ground arith)
      (ground arith)
enter-Agrees e socket AuthStatus.approved none r s a = a
enter-Agrees e socket AuthStatus.approved (some i) r s a = register-Agrees s a e socket i r

module _ (s : RelayServer) (a : Agrees s) where
  open_connection-Agrees :
      (e : Env) (up : Bool) (socket : ℕ) (frame : FirstFrame)
      → Agrees (open_connection e up socket frame s).1
  unfolding open_connection
  open_connection-Agrees e up socket frame =
      let t = (authenticate e up socket frame s).1 in
      let f = authenticate-same e up socket frame s in
      let b = same-Agrees s a t f.router f.connectors f.registrations f.next_registration in
      elim (Option-cases (authenticate e up socket frame s).0) [
        | inl h ↦ rw (h, open_connection) b
        | inr (r, h) ↦ rw (h, open_connection) (enter-Agrees e socket r.status r.connector_id r t b)
      ]

  answer-Agrees :
      (q : ℕ) (c : ConnectorRegistration) (slot : ℕ) (p : Pending) (m : RelayMessage)
      → s.registrations q ≡ some c
      → Agrees (answer q c slot p m s)
  unfolding answer
  answer-Agrees q c slot p m h =
      let slots = write slot (deliver m p) s.slots in
      elim (Bool-cases (retires m p)) [
        | inl y ↦
            rw (y, answer)
              (write-Agrees s a q c (record c { pending_requests = remove m.id c.pending_requests })
                slots s.next_slot h refl refl)
        | inr n ↦ rw (n, answer) (same-Agrees s a (record s { slots = slots }) refl refl refl refl)
      ]

  registered-held :
      (i : String) (q : ℕ) (c : ConnectorRegistration)
      → registered s i ≡ some (q, c)
      → s.registrations q ≡ some c
  unfolding registered
  registered-held i q c h = ground arith

  handle_message-Agrees : (i : String) (m : RelayMessage) → Agrees (handle_message i m s)
  unfolding handle_message
  handle_message-Agrees i m = elim (Option-cases (registered s i)) [
    | inl x ↦ rw (x, handle_message) a
    | inr ((q, c), x) ↦ elim (Bool-cases (is_pong m.type)) [
      | inl y ↦ rw (x, handle_message) (rw y a)
      | inr y ↦ elim (Option-cases (lookup m.id c.pending_requests)) [
        | inl z ↦ rw (x, handle_message) (rw y (rw z a))
        | inr (slot, z) ↦ elim (Option-cases (s.slots slot)) [
          | inl w ↦ rw (x, handle_message) (rw y (rw z (rw w a)))
          | inr (p, w) ↦
              rw (x, handle_message)
                (rw y (rw z (rw w (answer-Agrees q c slot p m (registered-held i q c x)))))
        ]
      ]
    ]
  ]

  cleanup-Agrees : (i : String) → Agrees (cleanup i s)
  unfolding cleanup
  cleanup-Agrees i = unregister-Agrees (drop_pending i s) (drop_pending-Agrees s a i) i

  finish_request-Agrees : (q : ℕ) (k : String) → Agrees (finish_request q k s)
  unfolding finish_request
  finish_request-Agrees q k = elim (Option-cases (s.registrations q)) [
    | inl x ↦ rw (x, finish_request) a
    | inr (c, x) ↦
        rw (x, finish_request)
          (write-Agrees s a q c (record c { pending_requests = remove k c.pending_requests })
            s.slots s.next_slot x refl refl)
  ]

  enter_request-Agrees :
      (q : ℕ) (c : ConnectorRegistration) (k : String) (p : Pending)
      → s.registrations q ≡ some c
      → Agrees (enter_request q c k p s)
  unfolding enter_request
  enter_request-Agrees q c k p h =
      write-Agrees s a q c (record c { pending_requests = insert k s.next_slot c.pending_requests })
        (write s.next_slot p s.slots) (s.next_slot + 1) h refl refl

-- A transition keeps the agreement.
module _ {s : RelayServer} (a : Agrees s) where
  emit-Agrees : (socket : ℕ) (o : Outgoing) → Agrees (emit socket o s)
  emit-Agrees socket o = same-Agrees s a (emit socket o s) refl refl refl refl

  put_back-Agrees : (slot : ℕ) (o : Option Pending) → Agrees (put_back slot o s)
  put_back-Agrees slot none = a
  put_back-Agrees slot (some p) = same-Agrees s a (put_back slot (some p) s) refl refl refl refl

pub Step-Agrees : {s t : RelayServer} → Step s t → Agrees s → Agrees t
unfolding start stop ping send_request await_response send_request_streaming notify_approval
    notify_revoke
Step-Agrees {s} started a = same-Agrees s a (start s) refl refl refl refl
Step-Agrees {s} stopped a = same-Agrees s a (stop s) refl refl refl refl
Step-Agrees {s} (opened e up socket frame) a = open_connection-Agrees s a e up socket frame
Step-Agrees {s} (messaged i m) a = handle_message-Agrees s a i m
Step-Agrees {s} (cleaned i) a = cleanup-Agrees s a i
Step-Agrees {s} (pinged e up i) a =
    same-Agrees s a (ping e up i s).1 (ground arith) (ground arith) (ground arith) (ground arith)
Step-Agrees {s} (requested up i m) a = elim (Option-cases (registered s i)) [
  | inl x ↦ rw (x, send_request) a
  | inr ((q, c), x) ↦
      let b = enter_request-Agrees s a q c m.id (future waiting) (registered-held s a i q c x) in
      elim (Bool-cases up) [
        | inl y ↦ rw (x, send_request) (rw y (emit-Agrees b c.websocket (sent m)))
        | inr y ↦
            rw (x, send_request)
              (rw y (finish_request-Agrees (enter_request q c m.id (future waiting) s) b q m.id))
      ]
]
Step-Agrees {s} (responded r slot k) a =
    finish_request-Agrees (put_back slot (cancel (s.slots slot)) s)
      (put_back-Agrees a slot (cancel (s.slots slot))) r k
Step-Agrees {s} (streamed up i m) a = elim (Option-cases (registered s i)) [
  | inl x ↦ rw (x, send_request_streaming) a
  | inr ((q, c), x) ↦
      let b = enter_request-Agrees s a q c m.id (queue []) (registered-held s a i q c x) in
      elim (Bool-cases up) [
        | inl y ↦ rw (x, send_request_streaming) (rw y (emit-Agrees b c.websocket (sent m)))
        | inr y ↦ rw (x, send_request_streaming) (rw y b)
      ]
]
Step-Agrees {s} (notified up i key) a =
    same-Agrees s a (notify_approval up i key s).1 (ground arith) (ground arith) (ground arith)
      (ground arith)
Step-Agrees {s} (revoked e up i reason) a =
    same-Agrees s a (notify_revoke e up i reason s).1 (ground arith) (ground arith) (ground arith)
      (ground arith)
Step-Agrees {s} (administered store) a =
    same-Agrees s a (record s { connector_store = store }) refl refl refl refl

abbrev router_connectors : Option ModelRouter → Dict ConnectorInfo
router_connectors none = []
router_connectors (some r) = r.connectors

abbrev BuiltAt : Option ModelRouter → Type 0
BuiltAt none = Unit
BuiltAt (some r) = IsBuilt r

pub init-Agrees :
    (tokens : List String) (configs : Dict (Option String)) (store : Option ConnectorStore)
    → Agrees (State.init tokens configs store (some Router.init))
unfolding State.init registered lookup
init-Agrees tokens configs store = record {
  known = λ r i h. ground (arith, ap (λ o. lookup i (router_connectors o)) h);
  built = λ r h. subst (λ o. BuiltAt o) h init-IsBuilt;
  held = λ i q h. cc;
  bound = λ q c h. cc;
}

pub Reach-Agrees : {s t : RelayServer} → Reach s t → Agrees s → Agrees t
Reach-Agrees here a = a
Reach-Agrees (next r st) a = Step-Agrees st (Reach-Agrees r a)

-- Whatever the server has done since it started, a model that has a route is routed to a connector
-- that is connected, offers the model and registered with the key that the route carries.
pub get_route-registered :
    (tokens : List String) (configs : Dict (Option String)) (store : Option ConnectorStore)
    {t : RelayServer} (r : ModelRouter) (m i : String) (k : Option String)
    → Reach (State.init tokens configs store (some Router.init)) t
    → t.router ≡ some r
    → get_route r m ≡ some (i, k)
    → (q : ℕ) × (c : ConnectorRegistration) × (registered t i ≡ some (q, c))
      × (contains m c.models ≡ true)
      × (c.llm_api_key ≡ k)
get_route-registered tokens configs store {t} r m i k reach h e =
    let a = Reach-Agrees reach (init-Agrees tokens configs store) in
    let (w, found, serves, key) = get_route-found r m i k (a.built r h) e in
    elim (Option-cases (registered t i)) [
      | inl x ↦ absurd (ground (arith, a.known r i h))
      | inr ((q, c), x) ↦ let same = a.known r i h in (q, c, x, ground arith, ground arith)
    ]
