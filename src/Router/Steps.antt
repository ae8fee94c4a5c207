-- ===== src/Router/Steps.antt =====
-- The routers that the callbacks of broker/router.py lead to from the empty one, in any order.
use remote_llmconnector.Shared.{String, Option, List, ◌≡◌}
use remote_llmconnector.Router.{
  ModelRouter, init, get_route, on_connector_registered, on_connector_disconnected,
}
use remote_llmconnector.Router.Routes.{
  IsBuilt, init-IsBuilt, registered-IsBuilt, disconnected-IsBuilt, first_serving, get_route-built,
}

pub data Reach : ModelRouter → Type 0 where
  started : Reach init
  registered :
      {r : ModelRouter} (i : String) (models : List String) (k : Option String)
      → Reach r
      → Reach (on_connector_registered i models k r)
  disconnected : {r : ModelRouter} (i : String) → Reach r → Reach (on_connector_disconnected i r)

Reach-IsBuilt : {r : ModelRouter} → Reach r → IsBuilt r
Reach-IsBuilt started = init-IsBuilt
Reach-IsBuilt (registered {r} i models k h) = registered-IsBuilt i models k r (Reach-IsBuilt h)
Reach-IsBuilt (disconnected {r} i h) = disconnected-IsBuilt i r (Reach-IsBuilt h)

-- Whatever connectors have registered and disconnected, in any order, the route of a model leads to
-- the first of the router's connectors, in the order of registration, that names the model, with
-- that connector's key; there is none where no connector names it.
pub get_route-first_serving :
    {r : ModelRouter} (m : String) → Reach r → get_route r m ≡ first_serving m r.connectors
get_route-first_serving {r} m h = get_route-built r m (Reach-IsBuilt h)
