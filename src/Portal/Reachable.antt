-- ===== src/Portal/Reachable.antt =====
-- What holds of the broker in every state that portal requests, sign-ins and the relay server's steps
-- lead to, in any order.
use remote_llmconnector.Shared.{Dict, ℕ, String, true, Option, none, some, ◌≡◌, contains, List}
use remote_llmconnector.UserStore.Valid.{IsValid}
use remote_llmconnector.UserStore.Store.{UserStore}
use remote_llmconnector.UserStore.Steps as UserSteps
use remote_llmconnector.PrepromptStore.{PrepromptStore}
use remote_llmconnector.PrepromptStore.Defaults as Defaults
use remote_llmconnector.ConnectorStore.Store.{ConnectorStore}
use remote_llmconnector.Router
use remote_llmconnector.Router.{ModelRouter, get_route}
use remote_llmconnector.RelayServer.State
use remote_llmconnector.RelayServer.State.{RelayServer, ConnectorRegistration, registered}
use remote_llmconnector.RelayServer.Steps as ServerSteps
use remote_llmconnector.RelayServer.Routed.{get_route-registered}
use remote_llmconnector.Portal.RequestLogger.{RequestLogger}
use remote_llmconnector.Portal.State.{Portal}
use remote_llmconnector.Portal.Follows.{Follows, PrepromptReach, server-Follows}
use remote_llmconnector.Portal.Steps.{handle_post-Follows}
use remote_llmconnector.Portal.Broker.{
  Step, posted, called_back, submitted, relayed, Reach, here, next, handle_callback-Follows,
  handle_login_submit-Follows,
}

Step-Follows : {p t : Portal} → Step p t → IsValid p.user_store → Follows p t
Step-Follows {p} (posted int e up action session fresh) v =
    handle_post-Follows int e up action session p v fresh
Step-Follows {p} (called_back h client e query session fresh) v =
    handle_callback-Follows e p v fresh h client query session
Step-Follows {p} (submitted isalnum hash e form session fresh) v =
    handle_login_submit-Follows e p v fresh isalnum hash form session
Step-Follows {p} (relayed st) v =
    server-Follows p (ServerSteps.Reach.next ServerSteps.Reach.here st)

users_kept : {s t : UserStore} → UserSteps.Reach s t → IsValid s → IsValid t
users_kept UserSteps.Reach.here v = v
users_kept (UserSteps.Reach.next r st) v = UserSteps.Step-IsValid st (users_kept r v)

preprompts_kept :
    {s t : PrepromptStore}
    → Defaults.Reach s t
    → Defaults.IsValid s.preprompts
    → Defaults.IsValid t.preprompts
preprompts_kept Defaults.Reach.here v = v
preprompts_kept (Defaults.Reach.next r st) v = Defaults.Step-IsValid st (preprompts_kept r v)

joined_server :
    {s t u : RelayServer} → ServerSteps.Reach s t → ServerSteps.Reach t u → ServerSteps.Reach s u
joined_server r ServerSteps.Reach.here = r
joined_server r (ServerSteps.Reach.next q st) = ServerSteps.Reach.next (joined_server r q) st

-- The preprompt store, if there is one, is well formed.
abbrev pub HasPreprompts : Option PrepromptStore → Type 0
HasPreprompts none = Unit
HasPreprompts (some s) = Defaults.IsValid s.preprompts

preprompts_follow :
    (o q : Option PrepromptStore) → PrepromptReach o q → HasPreprompts o → HasPreprompts q
preprompts_follow none none r v = tt
preprompts_follow none (some t) r v = absurd r
preprompts_follow (some s) none r v = absurd r
preprompts_follow (some s) (some t) r v = preprompts_kept r v

-- From any broker with well-formed stores, portal requests with any session, sign-ins and the relay
-- server's steps, in any order and number, lead to well-formed stores: every user stands under the
-- own name and the own key, and at most one preprompt is the default. What they do to the relay
-- server is a sequence of the server's own steps.
pub Reach-server :
    {p t : Portal}
    → Reach p t
    → IsValid p.user_store
    → HasPreprompts p.preprompt_store
    → IsValid t.user_store × HasPreprompts t.preprompt_store × ServerSteps.Reach p.server t.server
Reach-server here v w = (v, w, ServerSteps.Reach.here)
Reach-server {p} {t = u} (next {t} r st) v w =
    let (v', w', reach) = Reach-server r v w in
    let f = Step-Follows st v' in
    (
      users_kept f.users v',
      preprompts_follow t.preprompt_store u.preprompt_store f.preprompts w',
      joined_server reach f.server,
    )

-- The broker as it starts, with a relay server of its own.
abbrev pub started :
    UserStore
    → Option PrepromptStore
    → RequestLogger
    → List String
    → Dict (Option String)
    → Option ConnectorStore
    → Portal
started users preprompts logger tokens configs store = record {
  user_store = users;
  preprompt_store = preprompts;
  request_logger = logger;
  server = State.init tokens configs store (some Router.init);
}

-- Whatever the admins, the users who sign in and the connectors have done since the broker started,
-- a model that has a route is routed to a connector that is connected, offers the model, and
-- registered with the key that the route carries.
pub get_route-Reach :
    (users : UserStore) (preprompts : Option PrepromptStore) (logger : RequestLogger)
    (tokens : List String) (configs : Dict (Option String)) (store : Option ConnectorStore)
    {t : Portal} (r : ModelRouter) (m i : String) (k : Option String)
    → IsValid users
    → HasPreprompts preprompts
    → Reach (started users preprompts logger tokens configs store) t
    → t.server.router ≡ some r
    → get_route r m ≡ some (i, k)
    → (q : ℕ) × (c : ConnectorRegistration) × (registered t.server i ≡ some (q, c))
      × (contains m c.models ≡ true)
      × (c.llm_api_key ≡ k)
get_route-Reach users preprompts logger tokens configs store r m i k v w reach known route =
    get_route-registered tokens configs store r m i k (Reach-server reach v w).2 known route
