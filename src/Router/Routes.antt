-- ===== src/Router/Routes.antt =====
-- The routing table against an independent reading of the connectors: the first one, in the order
-- of registration, that names the model.
use remote_llmconnector.Shared.{
  Dict, lookup, insert, remove, has, contains, String, true, false, Option, none, some, List, [],
  ◌∷◌, ◌++◌, ◌≡◌, Bool-cases, ◌≢◌, refl, arith, eq_iff, if◌then◌else◌, Option-cases, inl, inr,
  lookup-insert, lookup-remove, insert_fresh, IsUnique, insert-IsUnique, remove-IsUnique,
  contains-keys, ◌∙◌, sym, ap,
}
use remote_llmconnector.Router.{
  RouteInfo, ConnectorInfo, ModelRouter, init, add_models, add_connectors, build_routes, get_route,
  on_connector_registered, on_connector_disconnected, available_models, route_owners,
  get_all_models_with_connectors,
}

-- The first connector that names the model.
unfoldable pub first_serving : String → Dict ConnectorInfo → Option (String × Option String)
first_serving model [] = none
first_serving model ((connector_id, info) ∷ rest) =
    if contains model info.models
    then some (connector_id, info.llm_api_key)
    else first_serving model rest

abbrev or_route : Option RouteInfo → Option RouteInfo → Option RouteInfo
or_route none b = b
or_route (some a) b = some a

lookup-add_models :
    (info : RouteInfo) (models : List String) (routes : Dict RouteInfo) (m : String)
    → lookup m (add_models info models routes)
      ≡ or_route (lookup m routes) (if contains m models then some info else none)
unfolding add_models
lookup-add_models info [] routes m = ground arith
lookup-add_models info (model ∷ models) routes m = ground (
  arith,
  lookup-add_models info models (insert model info routes) m,
  lookup-add_models info models routes m,
  lookup-insert model m info routes,
  eq_iff model m,
)

abbrev route_of : Option (String × Option String) → Option RouteInfo
route_of none = none
route_of (some (i, k)) = some (record { connector_id = i; llm_api_key = k })

lookup-add_connectors :
    (connectors : Dict ConnectorInfo) (routes : Dict RouteInfo) (m : String)
    → lookup m (add_connectors connectors routes)
      ≡ or_route (lookup m routes) (route_of (first_serving m connectors))
unfolding add_connectors first_serving
lookup-add_connectors [] routes m = ground arith
lookup-add_connectors ((i, info) ∷ rest) routes m =
    let route : RouteInfo = record { connector_id = i; llm_api_key = info.llm_api_key } in
    ground (
      arith,
      lookup-add_connectors rest (add_models route info.models routes) m,
      lookup-add_models route info.models routes m,
    )

-- The routes are those that the connectors give, and the connectors are a dict.
pub record IsBuilt (r : ModelRouter) : Type 0 where
  pub built : (m : String) → lookup m r.routes ≡ route_of (first_serving m r.connectors)
  pub unique : IsUnique r.connectors

pub build_routes-IsBuilt : (r : ModelRouter) → IsUnique r.connectors → IsBuilt (build_routes r)
unfolding build_routes lookup
build_routes-IsBuilt r u = record {
  built = λ m. lookup-add_connectors r.connectors [] m;
  unique = u;
}

pub init-IsBuilt : IsBuilt init
unfolding lookup first_serving
init-IsBuilt = record { built = λ m. refl; unique = tt }

pub registered-IsBuilt :
    (i : String) (models : List String) (k : Option String) (r : ModelRouter)
    → IsBuilt r
    → IsBuilt (on_connector_registered i models k r)
unfolding on_connector_registered
registered-IsBuilt i models k r h =
    let info : ConnectorInfo = record { connector_id = i; models = models; llm_api_key = k } in
    build_routes-IsBuilt (record r { connectors = insert i info r.connectors })
      (insert-IsUnique i info r.connectors h.unique)

pub disconnected-IsBuilt :
    (i : String) (r : ModelRouter) → IsBuilt r → IsBuilt (on_connector_disconnected i r)
unfolding on_connector_disconnected
disconnected-IsBuilt i r h = elim (Option-cases (lookup i r.connectors)) [
  | inl e ↦ rw (e, on_connector_disconnected) h
  | inr (v, e) ↦
      rw (e, on_connector_disconnected)
        (build_routes-IsBuilt (record r { connectors = remove i r.connectors })
          (remove-IsUnique i r.connectors h.unique))
]

pub get_route-built :
    (r : ModelRouter) (m : String) → IsBuilt r → get_route r m ≡ first_serving m r.connectors
unfolding get_route
get_route-built r m h = ground (arith, h.built m)

first_serving-append :
    (m i : String) (info : ConnectorInfo) (d : Dict ConnectorInfo)
    → first_serving m (d ++ ((i, info) ∷ [])) ≡ elim (first_serving m d) [
      | none ↦ if contains m info.models then some (i, info.llm_api_key) else none
      | some route ↦ some route
    ]
unfolding first_serving
first_serving-append m i info [] = ground arith
first_serving-append m i info ((j, w) ∷ d) = ground (arith, first_serving-append m i info d)

-- A new connector takes over no model that has a route: it serves only those of its models that had
-- none, with its own key.
pub get_route-on_connector_registered :
    (i : String) (models : List String) (k : Option String) (r : ModelRouter) (m : String)
    → IsBuilt r
    → lookup i r.connectors ≡ none
    → get_route (on_connector_registered i models k r) m ≡ elim (get_route r m) [
      | none ↦ if contains m models then some (i, k) else none
      | some route ↦ some route
    ]
get_route-on_connector_registered i models k r m h fresh =
    let info : ConnectorInfo = record { connector_id = i; models = models; llm_api_key = k } in
    get_route-built _ m (registered-IsBuilt i models k r h)
    ∙ (unfold on_connector_registered build_routes in
        rw (insert_fresh i info r.connectors fresh, get_route-built r m h)
          (first_serving-append m i info r.connectors))

first_serving-present :
    (m i : String) (k : Option String) (d : Dict ConnectorInfo)
    → first_serving m d ≡ some (i, k)
    → has i d ≡ true
unfolding first_serving lookup
first_serving-present m i k [] h = cc
first_serving-present m i k ((j, w) ∷ d) h =
    ground (arith, first_serving-present m i k d, eq_iff j i)

first_serving-found :
    (m i : String) (k : Option String) (d : Dict ConnectorInfo)
    → IsUnique d
    → first_serving m d ≡ some (i, k)
    → (w : ConnectorInfo) × (lookup i d ≡ some w)
      × (contains m w.models ≡ true)
      × (w.llm_api_key ≡ k)
unfolding first_serving lookup
first_serving-found m i k [] u h = cc
first_serving-found m i k ((j, w) ∷ d) u h = elim (Bool-cases (contains m w.models)) [
  | inl y ↦ (w, ground (arith, eq_iff j i), y, ground arith)
  | inr n ↦
      let (x, found, serves, key) = first_serving-found m i k d u.1 (rw n at h) in
      (x, ground (arith, eq_iff j i, ap (λ l. lookup l d)), serves, key)
]

-- A route leads to a connector that the router holds, that offers the model, and whose key it
-- carries.
pub get_route-found :
    (r : ModelRouter) (m i : String) (k : Option String)
    → IsBuilt r
    → get_route r m ≡ some (i, k)
    → (w : ConnectorInfo) × (lookup i r.connectors ≡ some w)
      × (contains m w.models ≡ true)
      × (w.llm_api_key ≡ k)
get_route-found r m i k h e =
    first_serving-found m i k r.connectors h.unique (sym (get_route-built r m h) ∙ e)

-- Every route leads to a connector that the router holds.
pub get_route-present :
    (r : ModelRouter) (m i : String) (k : Option String)
    → IsBuilt r
    → get_route r m ≡ some (i, k)
    → has i r.connectors ≡ true
get_route-present r m i k h e =
    first_serving-present m i k r.connectors (sym (get_route-built r m h) ∙ e)

-- After a connector's disconnection no model is routed to it, whatever was routed to it before.
pub get_route-on_connector_disconnected :
    (i : String) (r : ModelRouter) (m : String) (k : Option String)
    → IsBuilt r
    → get_route (on_connector_disconnected i r) m ≢ some (i, k)
get_route-on_connector_disconnected i r m k h e =
    let present = get_route-present _ m i k (disconnected-IsBuilt i r h) e in
    unfold on_connector_disconnected build_routes in
    ground (arith, lookup-remove i i r.connectors, eq_iff i i)

-- The models on offer are those that some connector names.
pub available_models-served :
    (r : ModelRouter) (m : String)
    → IsBuilt r
    → contains m (available_models r)
      ≡ elim (first_serving m r.connectors) [ none ↦ false | some _ ↦ true ]
unfolding available_models
available_models-served r m h = ground (arith, contains-keys m r.routes, h.built m)

lookup-route_owners :
    (m : String) (d : Dict RouteInfo)
    → lookup m (route_owners d)
      ≡ elim (lookup m d) [ none ↦ none | some route ↦ some route.connector_id ]
unfolding lookup route_owners
lookup-route_owners m [] = refl
lookup-route_owners m ((j, route) ∷ d) = ground (arith, lookup-route_owners m d)

-- The overview of models and connectors names, for each model, the connector that requests for the
-- model are routed to.
pub owners-get_route :
    (r : ModelRouter) (m : String)
    → lookup m (get_all_models_with_connectors r)
      ≡ elim (get_route r m) [ none ↦ none | some (i, _) ↦ some i ]
unfolding get_all_models_with_connectors get_route
owners-get_route r m = ground (arith, lookup-route_owners m r.routes)
