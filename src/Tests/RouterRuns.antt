-- ===== src/Tests/RouterRuns.antt =====
-- The router and the messages at concrete inputs.
use remote_llmconnector.Shared.{lookup, insert, none, some, [], ◌∷◌, ◌≡◌, refl}
use remote_llmconnector.Router
use remote_llmconnector.Router.{
  ModelRouter, ConnectorInfo, get_route, on_connector_registered, on_connector_disconnected,
  build_routes, add_connectors, add_models, available_models, get_all_models_with_connectors,
}
use remote_llmconnector.Router.Routes.{IsBuilt, init-IsBuilt, registered-IsBuilt, first_serving}
use remote_llmconnector.Router.Steps.{started, registered, get_route-first_serving}

-- Two connectors that share a model.
abbrev one : ModelRouter
one = on_connector_registered "c1" ("m1" ∷ "m2" ∷ []) (some "k1") Router.init

abbrev both : ModelRouter
both = on_connector_registered "c2" ("m2" ∷ "m3" ∷ []) none one

one-IsBuilt : IsBuilt one
one-IsBuilt = registered-IsBuilt "c1" ("m1" ∷ "m2" ∷ []) (some "k1") Router.init init-IsBuilt

m2_route : get_route both "m2" ≡ some ("c1", some "k1")
unfolding get_route on_connector_registered build_routes add_connectors add_models lookup insert
m2_route = refl

get_route-first_serving_example : get_route both "m2" ≡ first_serving "m2" both.connectors
get_route-first_serving_example = get_route-first_serving "m2" (
    registered "c2" ("m2" ∷ "m3" ∷ []) none
      (registered "c1" ("m1" ∷ "m2" ∷ []) (some "k1") started))

no_c2 : lookup "c2" one.connectors ≡ none
unfolding lookup insert on_connector_registered build_routes
no_c2 = refl
