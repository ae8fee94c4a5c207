-- ===== src/BrokerApi/Forwarding.antt =====
-- What reaches a connector through `_handle_chat_completions` of broker/api.py: nothing of a refused
-- request, and a routed request on the socket of a connector that offers the model.
use remote_llmconnector.Shared.{
  Dict, Value, str, Env, ℕ, String, Bool, true, false, Option, none, some, List, [], ◌≡◌, ◌≢◌, refl,
  truth, truth_of, field, truthy, contains, Bool-cases, Option-cases, inl, inr,
}
use remote_llmconnector.Router
use remote_llmconnector.Router.{ModelRouter, get_route}
use remote_llmconnector.ConnectorStore.Store.{ConnectorStore}
use remote_llmconnector.RelayServer.State
use remote_llmconnector.RelayServer.State.{
  RelayServer, ConnectorRegistration, Pending, future, queue, waiting, Outgoing, sent, emit,
  registered,
}
use remote_llmconnector.RelayServer.Sending.{send_request-up, send_request_streaming-up}
use remote_llmconnector.RelayServer.Requests.{enter_request}
use remote_llmconnector.RelayServer.Steps.{Reach}
use remote_llmconnector.RelayServer.Routed.{get_route-registered}
use remote_llmconnector.BrokerApi.Responses.{HttpRequest, Codec}
use remote_llmconnector.BrokerApi.UserKeys.{validate_user_api_key}
use remote_llmconnector.BrokerApi.Chat.{
  Chat, awaits_response, awaits_stream, relay_message, forward, route_value, route_model,
  handle_chat_completions,
}

-- The wait that a request comes to, and the slot that it waits on.
abbrev pub awaits : Bool → ℕ → ℕ → Chat
awaits true r slot = awaits_stream r slot
awaits false r slot = awaits_response r slot

abbrev pub fresh_slot : Bool → Pending
fresh_slot true = queue []
fresh_slot false = future waiting

route_value-sends :
    (codec : Codec) (e : Env) (up : Bool) (q : HttpRequest) (b : Bool) (v : Value) (r : ModelRouter)
    (s : RelayServer)
    → (route_value codec e up q b v r s).1 ≢ s
    → (m : String) × (i : String) × (k : Option String) × (v ≡ str m)
      × (get_route r m ≡ some (i, k))
unfolding route_value
route_value-sends codec e up q b Value.null r s h = absurd (h refl)
route_value-sends codec e up q b (str m) r s h = elim (Option-cases (get_route r m)) [
  | inl x ↦ absurd (h (rw (x, route_value) refl))
  | inr ((i, k), x) ↦ (m, i, k, refl, x)
]
route_value-sends codec e up q b (Value.flag f) r s h = absurd (h refl)
route_value-sends codec e up q b (Value.number n) r s h = absurd (h refl)
route_value-sends codec e up q b (Value.strs l) r s h = absurd (h refl)
route_value-sends codec e up q b (Value.table d) r s h = absurd (h refl)
route_value-sends codec e up q b (Value.other f) r s h = absurd (h refl)

route_model-sends :
    (codec : Codec) (e : Env) (up : Bool) (q : HttpRequest) (b : Bool) (o : Option Value)
    (r : ModelRouter) (s : RelayServer)
    → (route_model codec e up q b o r s).1 ≢ s
    → (m : String) × (i : String) × (k : Option String) × (o ≡ some (str m))
      × (get_route r m ≡ some (i, k))
route_model-sends codec e up q b none r s h = absurd (h refl)
route_model-sends codec e up q b (some v) r s h = elim (Bool-cases (truth v)) [
  | inl x ↦
      let (m, i, k, g, f) = route_value-sends codec e up q b v r s (rw x at h) in
      (m, i, k, rw g refl, f)
  | inr x ↦ absurd (rw x at h refl)
]

-- A request that changes anything in the relay server carries an accepted user key and names a model
-- that has a route: a refused request sends nothing and leaves no trace.
pub handle_chat_completions-authorised :
    (user_api_keys : List String) (codec : Codec) (e : Env) (up : Bool) (request : HttpRequest)
    (r : ModelRouter) (s : RelayServer)
    → (handle_chat_completions user_api_keys codec e up request r s).1 ≢ s
    → (validate_user_api_key user_api_keys request.authorization ≡ none)
      × ((m : String) × (i : String) × (k : Option String) × (field "model"
              (codec.loads request.body)
            ≡ some (str m))
          × (get_route r m ≡ some (i, k)))
unfolding handle_chat_completions
handle_chat_completions-authorised keys codec e up q r s h =
    elim (Option-cases (validate_user_api_key keys q.authorization)) [
      | inl x ↦ (
        x,
        route_model-sends codec e up q (truth_of (field "stream" (codec.loads q.body)))
            (field "model" (codec.loads q.body)) r s (rw (x, handle_chat_completions) at h),
      )
      | inr (t, x) ↦ absurd (h (rw (x, handle_chat_completions) refl))
    ]

module _ (codec : Codec) (e : Env) (q : HttpRequest) (m i : String) (s : RelayServer) (n : ℕ)
    (c : ConnectorRegistration) (h : registered s i ≡ some (n, c)) where
  -- The wait, and the server with the request on its way.
  abbrev pub on_the_way : Bool → Chat × RelayServer
  on_the_way b =
      let message = relay_message codec e q c.llm_api_key in
      (
        awaits b n s.next_slot,
        emit c.websocket (sent message) (enter_request n c message.id (fresh_slot b) s),
      )

  forward-sent : (b : Bool) → forward codec e true q b m i c.llm_api_key s ≡ on_the_way b
  unfolding forward
  forward-sent true =
      rw (h, forward)
        (rw (send_request_streaming-up s i (relay_message codec e q c.llm_api_key) n c h) refl)
  forward-sent false =
      rw (h, forward) (rw (send_request-up s i (relay_message codec e q c.llm_api_key) n c h) refl)

  handle_chat_completions-sent :
      (keys : List String) (r : ModelRouter)
      → validate_user_api_key keys q.authorization ≡ none
      → field "model" (codec.loads q.body) ≡ some (str m)
      → truthy m ≡ true
      → get_route r m ≡ some (i, c.llm_api_key)
      → handle_chat_completions keys codec e true q r s
        ≡ on_the_way (truth_of (field "stream" (codec.loads q.body)))
  unfolding handle_chat_completions route_value truth
  handle_chat_completions-sent keys r a f y g =
      rw (a, handle_chat_completions)
        (rw f (
          rw y
            (rw (g, route_value) (forward-sent (truth_of (field "stream" (codec.loads q.body)))))))

-- Whatever the server has done since it started, an accepted request for a model that has a route is
-- sent on the socket of a connected connector that offers the model, with the key that this
-- connector registered with, and waits there on a new slot, entered under the request's id; it is
-- never answered that the connector is unavailable. The connector's socket takes the message.
pub handle_chat_completions-routed :
    (tokens : List String) (configs : Dict (Option String)) (store : Option ConnectorStore)
    {t : RelayServer} (r : ModelRouter) (user_api_keys : List String) (codec : Codec) (e : Env)
    (request : HttpRequest) (m i : String) (k : Option String)
    → Reach (State.init tokens configs store (some Router.init)) t
    → t.router ≡ some r
    → validate_user_api_key user_api_keys request.authorization ≡ none
    → field "model" (codec.loads request.body) ≡ some (str m)
    → truthy m ≡ true
    → get_route r m ≡ some (i, k)
    → (n : ℕ) × (c : ConnectorRegistration) × (registered t i ≡ some (n, c))
      × (contains m c.models ≡ true)
      × (handle_chat_completions user_api_keys codec e true request r t ≡ (
          let b = truth_of (field "stream" (codec.loads request.body)) in
          let message = relay_message codec e request c.llm_api_key in
          (
            awaits b n t.next_slot,
            emit c.websocket (sent message) (enter_request n c message.id (fresh_slot b) t),
          )))
handle_chat_completions-routed tokens configs store {t} r keys codec e q m i k reach h a f y g =
    let (n, c, x, serves, key) = get_route-registered tokens configs store r m i k reach h g in
    (n, c, x, serves, handle_chat_completions-sent codec e q m i t n c x keys r a f y (rw key g))
