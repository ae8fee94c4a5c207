-- ===== src/Router.antt =====
-- broker/router.py: which connector serves a model.
pub mod Routes
pub mod Steps
use remote_llmconnector.Shared.{
  Dict, lookup, insert, remove, keys, values, has, contains, length, ℕ, String, Bool, true, false,
  Option, none, some, List, [], ◌∷◌, map,
}

pub record RouteInfo : Type 0 where
  pub connector_id : String
  pub llm_api_key : Option String

pub record ConnectorInfo : Type 0 where
  pub connector_id : String
  pub models : List String
  pub llm_api_key : Option String

pub record ModelRouter : Type 0 where
  pub routes : Dict RouteInfo
  pub connectors : Dict ConnectorInfo

abbrev pub init : ModelRouter
init = record { routes = []; connectors = [] }

unfoldable pub available_models : ModelRouter → List String
available_models r = keys r.routes

unfoldable pub connector_count : ModelRouter → ℕ
connector_count r = length r.connectors

-- The inner loop of `build_routes`: the first connector to name a model keeps it.
unfoldable pub add_models : RouteInfo → List String → Dict RouteInfo → Dict RouteInfo
add_models info [] routes = routes
add_models info (model ∷ models) routes =
    add_models info models
      (elim (lookup model routes) [ none ↦ insert model info routes | some _ ↦ routes ])

-- The outer loop of `build_routes`.
unfoldable pub add_connectors : Dict ConnectorInfo → Dict RouteInfo → Dict RouteInfo
unfolding add_models
add_connectors [] routes = routes
add_connectors ((connector_id, info) ∷ rest) routes = add_connectors rest (
    add_models (record { connector_id = connector_id; llm_api_key = info.llm_api_key }) info.models
      routes)

unfoldable pub build_routes : ModelRouter → ModelRouter
unfolding add_connectors
build_routes r = record r { routes = add_connectors r.connectors [] }

unfoldable pub get_route : ModelRouter → String → Option (String × Option String)
get_route r model = elim (lookup model r.routes) [
  | none ↦ none
  | some route ↦ some (route.connector_id, route.llm_api_key)
]

unfoldable pub on_connector_registered :
    String → List String → Option String → ModelRouter → ModelRouter
unfolding build_routes
on_connector_registered connector_id models llm_api_key r = build_routes (record r {
  connectors =
      insert connector_id
        (record { connector_id = connector_id; models = models; llm_api_key = llm_api_key })
        r.connectors;
})

unfoldable pub on_connector_disconnected : String → ModelRouter → ModelRouter
unfolding build_routes
on_connector_disconnected connector_id r = elim (lookup connector_id r.connectors) [
  | none ↦ r
  | some info ↦ build_routes (record r { connectors = remove connector_id r.connectors })
]

unfoldable pub get_connector_models : ModelRouter → String → Option (List String)
get_connector_models r connector_id = elim (lookup connector_id r.connectors) [
  | none ↦ none
  | some info ↦ some info.models
]

-- The dict comprehension of `get_all_models_with_connectors`.
unfoldable pub route_owners : Dict RouteInfo → Dict String
route_owners [] = []
route_owners ((model, route) ∷ routes) = (model, route.connector_id) ∷ route_owners routes

unfoldable pub get_all_models_with_connectors : ModelRouter → Dict String
unfolding route_owners
get_all_models_with_connectors r = route_owners r.routes

-- One row of `get_connector_info`.
pub record ConnectorRow : Type 0 where
  pub id : String
  pub models : List String
  pub model_count : ℕ
  pub connected : Bool

abbrev pub connector_row : ConnectorInfo → ConnectorRow
connector_row info = record {
  id = info.connector_id;
  models = info.models;
  model_count = length info.models;
  connected = true;
}

unfoldable pub get_connector_info : ModelRouter → List ConnectorRow
get_connector_info r = map connector_row (values r.connectors)
