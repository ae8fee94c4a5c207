-- ===== src/RelayServer/Agreement.antt =====
-- The server's registrations and the router's connectors agree, whatever the server does: a model
-- is routed to a connector that is connected, serves the model, and has the route's key.
use remote_llmconnector.Shared.{
  lookup, insert, remove, Heap, write, Env, ℕ, ◌<◌, String, Option, none, some, List, [], ◌≡◌, ◌≢◌,
  refl, ap, arith, eq_iff, ◌==◌, truthy, Bool-cases, Option-cases, inl, inr, lookup-insert,
  lookup-remove, if◌then◌else◌,
}
use remote_llmconnector.Router.{
  ModelRouter, ConnectorInfo, on_connector_registered, on_connector_disconnected,
}
use remote_llmconnector.Router.Routes.{IsBuilt, registered-IsBuilt, disconnected-IsBuilt}
use remote_llmconnector.RelayServer.State.{RelayServer, ConnectorRegistration, Pending, registered}
use remote_llmconnector.RelayServer.Authentication.{AuthResult}
use remote_llmconnector.RelayServer.Connection.{
  register, abandon_all, drop_pending, unregister, map_router,
}

-- What the router should know of a registration.
abbrev pub info_of : String → Option (ℕ × ConnectorRegistration) → Option ConnectorInfo
info_of i none = none
info_of i (some (r, c)) =
    some (record { connector_id = i; models = c.models; llm_api_key = c.llm_api_key })

pub record Agrees (s : RelayServer) : Type 0 where
  pub known :
      (r : ModelRouter) (i : String)
      → s.router ≡ some r
      → lookup i r.connectors ≡ info_of i (registered s i)
  pub built : (r : ModelRouter) → s.router ≡ some r → IsBuilt r
  pub held : (i : String) (q : ℕ) → lookup i s.connectors ≡ some q → s.registrations q ≢ none
  pub bound :
      (q : ℕ) (c : ConnectorRegistration) → s.registrations q ≡ some c → q < s.next_registration

connectors-registered :
    (i : String) (models : List String) (k : Option String) (r : ModelRouter)
    → (on_connector_registered i models k r).connectors
      ≡ insert i (record { connector_id = i; models = models; llm_api_key = k }) r.connectors
unfolding on_connector_registered
connectors-registered i models k r = refl

lookup-disconnected :
    (i j : String) (r : ModelRouter)
    → lookup j (on_connector_disconnected i r).connectors
      ≡ (if i == j then none else lookup j r.connectors)
unfolding on_connector_disconnected
lookup-disconnected i j r = elim (Option-cases (lookup i r.connectors)) [
  | inl e ↦
      rw (e, on_connector_disconnected)
        (ground (arith, eq_iff i j, ap (λ k. lookup k r.connectors)))
  | inr (v, e) ↦ rw (e, on_connector_disconnected) (lookup-remove i j r.connectors)
]

map_router-eq-some :
    (f : ModelRouter → ModelRouter) (o : Option ModelRouter) (t : ModelRouter)
    → map_router f o ≡ some t
    → (r : ModelRouter) × (o ≡ some r) × (f r ≡ t)
map_router-eq-some f none t h = cc
map_router-eq-some f (some r) t h = (r, refl, ground arith)

module _ (s : RelayServer) (a : Agrees s) where
  ref-lt : (i : String) (q : ℕ) → lookup i s.connectors ≡ some q → q < s.next_registration
  ref-lt i q h = elim (Option-cases (s.registrations q)) [
    | inl e ↦ absurd (a.held i q h e)
    | inr (c, e) ↦ a.bound q c e
  ]

  -- The registration that `register` makes.
  abbrev new_registration : Env → ℕ → String → AuthResult → ConnectorRegistration
  new_registration e socket i r = record {
    connector_id = i;
    websocket = socket;
    connected_at = e.now;
    models = r.models;
    llm_api_key = r.llm_api_key;
    pending_requests = [];
  }

  pub registered-register :
      (e : Env) (socket : ℕ) (i j : String) (r : AuthResult)
      → registered (register e socket i r s) j ≡ (
          if i == j
          then some (s.next_registration, new_registration e socket i r)
          else registered s j)
  unfolding register registered write
  registered-register e socket i j r =
      let n = s.next_registration in
      elim (Option-cases (lookup j s.connectors)) [
        | inl h ↦ ground (arith, lookup-insert i j n s.connectors, eq_iff i j)
        | inr (q, h) ↦ ground (arith, lookup-insert i j n s.connectors, eq_iff i j, ref-lt j q h)
      ]

  pub register-Agrees :
      (e : Env) (socket : ℕ) (i : String) (r : AuthResult) → Agrees (register e socket i r s)
  unfolding register write registered
  register-Agrees e socket i r =
      let n = s.next_registration in
      record {
        known = λ t j h.
            let (o, was, now) =
              map_router-eq-some (on_connector_registered i r.models r.llm_api_key) s.router t h in
            rw (← now) (
              rw connectors-registered (
                ground (
                  arith,
                  a.known o j was,
                  registered-register e socket i j r,
                  lookup-insert i j
                      (record { connector_id = i; models = r.models; llm_api_key = r.llm_api_key })
                      o.connectors,
                  eq_iff i j,
                )));
        built = λ t h.
            let (o, was, now) =
              map_router-eq-some (on_connector_registered i r.models r.llm_api_key) s.router t h in
            rw (← now) (registered-IsBuilt i r.models r.llm_api_key o (a.built o was));
        held = λ j q h. ground (arith, lookup-insert i j n s.connectors, a.held j q);
        bound = λ q c h. ground (arith, a.bound q c);
      }

  pub drop_pending-Agrees : (i : String) → Agrees (drop_pending i s)
  unfolding drop_pending registered
  drop_pending-Agrees i = record {
    known = λ t j h. ground (arith, a.known t j);
    built = λ t h. ground (arith, a.built t);
    held = λ j q h. ground (arith, a.held j q);
    bound = λ q c h. ground (arith, a.bound q c);
  }

  unregister_at-Agrees :
      (i : String) (q : ℕ) (c : ConnectorRegistration)
      → Agrees (record s {
        slots = abandon_all c.pending_requests s.slots;
        connectors = remove i s.connectors;
        router = map_router (on_connector_disconnected i) s.router;
      })
  unfolding registered
  unregister_at-Agrees i q c = record {
    known = λ t j h.
        let (o, was, now) = map_router-eq-some (on_connector_disconnected i) s.router t h in
        rw (← now) (
          rw lookup-disconnected (ground (arith, a.known o j was, lookup-remove i j s.connectors)));
    built = λ t h.
        let (o, was, now) = map_router-eq-some (on_connector_disconnected i) s.router t h in
        rw (← now) (disconnected-IsBuilt i o (a.built o was));
    held = λ j p h. ground (arith, lookup-remove i j s.connectors, a.held j p);
    bound = a.bound;
  }

  pub unregister-Agrees : (i : String) → Agrees (unregister i s)
  unfolding unregister
  unregister-Agrees i = elim (Option-cases (registered s i)) [
    | inl e ↦ rw (e, unregister) a
    | inr ((q, c), e) ↦ elim (Bool-cases (truthy i)) [
      | inl t ↦ rw (e, unregister) (rw t (unregister_at-Agrees i q c))
      | inr t ↦ rw (e, unregister) (rw t a)
    ]
  ]

  -- A change of a registration's waiting requests.
  pub write-Agrees :
      (q : ℕ) (c d : ConnectorRegistration) (slots : Heap Pending) (n : ℕ)
      → s.registrations q ≡ some c
      → d.models ≡ c.models
      → d.llm_api_key ≡ c.llm_api_key
      → Agrees
          (record s { registrations = write q d s.registrations; slots = slots; next_slot = n })
  unfolding registered write
  write-Agrees q c d slots n h same_models same_key = record {
    known = λ t j g. ground (arith, a.known t j g);
    built = a.built;
    held = λ j p g. ground (arith, a.held j p);
    bound = λ p x g. ground (arith, a.bound p x, a.bound q c);
  }
