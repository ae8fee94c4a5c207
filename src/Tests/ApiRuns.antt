-- ===== src/Tests/ApiRuns.antt =====
-- The HTTP API at concrete inputs.
use Prim.Native.String.{◌++◌ as append}
use remote_llmconnector.Shared.{
  lookup, insert, write, str, ℕ, String, true, false, Option, none, some, List, [], ◌∷◌, ◌++◌, map,
  ◌≡◌, ◌≢◌, ◌↔◌, ◌⊎◌, refl, ap, contains, truthy, select, truth_of, truth, field,
}
use remote_llmconnector.Protocol.{
  RelayMessage, create_auth_message, create_request_message, validate_auth,
  create_stream_chunk_message, create_error_message,
}
use remote_llmconnector.Router.{
  get_route, on_connector_registered, build_routes, add_connectors, add_models,
}
use remote_llmconnector.RelayServer.State
use remote_llmconnector.RelayServer.Authentication.{
  authenticate, authenticate_payload, authenticate_legacy,
}
use remote_llmconnector.RelayServer.Connection.{register, enter, open_connection}
use remote_llmconnector.RelayServer.State.{
  RelayServer, ConnectorRegistration, queue, sent, emit, registered,
}
use remote_llmconnector.RelayServer.Requests.{enter_request, send_request}
use remote_llmconnector.RelayServer.Queues.{handle_all}
use remote_llmconnector.BrokerApi.Responses.{HttpRequest, Codec}
use remote_llmconnector.BrokerApi.UserKeys.{
  validate_user_api_key, strip_prefix, validate_user_api_key-accepts,
}
use remote_llmconnector.BrokerApi.Chat.{
  relay_message, forward, route_value, handle_chat_completions,
}
use remote_llmconnector.BrokerApi.Streaming.{chunk, error_event, failed, consume}
use remote_llmconnector.BrokerApi.Forwarding.{
  awaits, fresh_slot, handle_chat_completions-authorised, handle_chat_completions-routed,
}
use remote_llmconnector.BrokerApi.Chunks.{consume-failed}
use remote_llmconnector.Tests.Data.{env}
use remote_llmconnector.Tests.RelayRuns.{
  joined, joined-Reach, joined_router, joined_router_lem, m1_route, streaming, streaming-Waits,
}

-- Other packages' parts, for a body that asks for "m1" and no stream.
abbrev codec : Codec
codec = record {
  encode = λ _. "e30=";
  decode = λ _. some [];
  loads = λ _. some (("model", str "m1") ∷ []);
  accepts_type = λ _. true;
  key_text = λ _. none;
  int_of = λ _. none;
}

abbrev post : HttpRequest
post = record {
  authorization = some "Bearer sk-1";
  method = "POST";
  path = "/v1/chat/completions";
  content_type = "application/json";
  body = [];
}

abbrev user_keys : List String
user_keys = "sk-1" ∷ []

accepted : validate_user_api_key user_keys post.authorization ≡ none
unfolding validate_user_api_key strip_prefix
accepted = refl

asks_m1 : field "model" (codec.loads post.body) ≡ some (str "m1")
unfolding lookup
asks_m1 = refl

validate_user_api_key-accepts_example :
    (validate_user_api_key user_keys post.authorization ≡ none) ↔ (
      (user_keys ≡ [])
      ⊎ ((token : String) × (post.authorization ≡ some (append "Bearer " token))
          × (contains token user_keys ≡ true)))
validate_user_api_key-accepts_example = validate_user_api_key-accepts user_keys post.authorization

handle_chat_completions-routed_example :
    (n : ℕ) × (c : ConnectorRegistration) × (registered joined "conn-a1" ≡ some (n, c))
    × (contains "m1" c.models ≡ true)
    × (handle_chat_completions user_keys codec env true post joined_router joined ≡ (
        let b = truth_of (field "stream" (codec.loads post.body)) in
        let message = relay_message codec env post c.llm_api_key in
        (
          awaits b n joined.next_slot,
          emit c.websocket (sent message) (enter_request n c message.id (fresh_slot b) joined),
        )))
handle_chat_completions-routed_example =
    handle_chat_completions-routed [] [] none joined_router user_keys codec env post "m1" "conn-a1"
      none joined-Reach joined_router_lem accepted asks_m1 refl m1_route

abbrev sent_on : RelayServer
sent_on = (handle_chat_completions user_keys codec env true post joined_router joined).1

joined_slot : joined.next_slot ≡ 0
unfolding open_connection authenticate authenticate_payload authenticate_legacy enter register
    validate_auth create_auth_message lookup State.init
joined_slot = refl

sent_on_slot : sent_on.next_slot ≡ 1
unfolding open_connection authenticate authenticate_payload authenticate_legacy enter register
    validate_auth create_auth_message lookup State.init insert write registered
    handle_chat_completions validate_user_api_key strip_prefix route_value truth get_route
    on_connector_registered build_routes add_connectors add_models forward send_request
    enter_request create_request_message
sent_on_slot = refl

-- The request has taken a slot.
changed : sent_on ≢ joined
changed p = cc (sent_on_slot, joined_slot, ap (λ t. t.next_slot) p)

handle_chat_completions-authorised_example :
    (validate_user_api_key user_keys post.authorization ≡ none)
    × ((m : String) × (i : String) × (k : Option String) × (field "model" (codec.loads post.body)
          ≡ some (str m))
        × (get_route joined_router m ≡ some (i, k)))
handle_chat_completions-authorised_example =
    handle_chat_completions-authorised user_keys codec env true post joined_router joined changed

-- A chunk, then an error.
abbrev broken_answers : List RelayMessage
broken_answers =
    create_stream_chunk_message "req-1" "Hi" false
    ∷ create_error_message "req-1" 502 "LLM down" "llm_error"
    ∷ []

consume-failed_example :
    (l : List (Option RelayMessage)) × ((handle_all "conn-a1" broken_answers streaming).slots 0
      ≡ some (queue l))
    × (consume l ≡ (
      map chunk (select truthy ("Hi" ∷ []))
          ++ (error_event (create_error_message "req-1" 502 "LLM down" "llm_error") ∷ []),
      failed,
    ))
unfolding create_stream_chunk_message create_error_message
consume-failed_example =
    consume-failed streaming "conn-a1" "req-1" 0 streaming-Waits broken_answers ("Hi" ∷ []) [] 502
      "LLM down" "llm_error" refl
