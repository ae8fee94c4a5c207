-- ===== src/Tests/ServiceRuns.antt =====
-- The connector service, a request's whole way and the readiness of the broker at concrete inputs.
use remote_llmconnector.Shared.{
  Dict, lookup, insert, write, map, select, truthy, leb, ℕ, String, Bool, true, false, Option, none,
  some, List, [], ◌∷◌, ◌++◌, ◌≡◌, refl, str, Value, truth, if◌then◌else◌,
}
use remote_llmconnector.Protocol.{
  RelayMessage, create_request_message, create_stream_chunk_message, create_stream_end_message,
  validate_request, create_auth_message, validate_auth,
}
use remote_llmconnector.Router
use remote_llmconnector.Router.{ModelRouter, get_route}
use remote_llmconnector.RelayServer.State
use remote_llmconnector.RelayServer.State.{
  RelayServer, ConnectorRegistration, future, queue, waiting, registered,
}
use remote_llmconnector.RelayServer.Authentication.{
  authenticate, authenticate_payload, authenticate_legacy,
}
use remote_llmconnector.RelayServer.Connection.{open_connection, enter, register, handle_message}
use remote_llmconnector.RelayServer.Requests.{outcome, send_request, enter_request}
use remote_llmconnector.RelayServer.Steps as ServerSteps
use remote_llmconnector.RelayServer.Queues.{handle_all}
use remote_llmconnector.BrokerApi.Responses.{HttpRequest, Codec}
use remote_llmconnector.BrokerApi.Chat.{relay_message, finish_response}
use remote_llmconnector.BrokerApi.Streaming.{chunk, complete, consume}
use remote_llmconnector.BrokerApi.Chunks.{of_request}
use remote_llmconnector.ConnectorService.LlmClient
use remote_llmconnector.ConnectorService.LlmClient.{
  LlmClient, outgoing_request, answered, opened, finished, yielded,
}
use remote_llmconnector.ConnectorService.Names.{normalize_model_name}
use remote_llmconnector.ConnectorService.Discovery as Discovery
use remote_llmconnector.ConnectorService.Requests.{
  object, Coder, Llm, Service, Prepared, prepare, llm_request, key_or, reply_headers,
  handle_request, serve, send_chunks, answer_stream, attempt, try_in_turn,
}
use remote_llmconnector.ConnectorService.Answers.{Answers, handle_request-Answers}
use remote_llmconnector.Journey.Headers.{expected_request, expected_value}
use remote_llmconnector.Journey.Outward.{llm_request-relay_message}
use remote_llmconnector.Journey.Back.{
  Expects, expected_response, finish_response-handle_request, consume-handle_request,
}
use remote_llmconnector.Tests.Data.{env}
use remote_llmconnector.Tests.RelayRuns.{
  asked, asked_known, asked_entry, seat, streaming, streaming-Waits,
}

llama_name :
    normalize_model_name "/opt/llama.cpp/models/meta-llama-3.1-8b-instruct-q4_k_m.gguf"
    ≡ "meta-llama-3.1-8b-instruct"
unfolding normalize_model_name
llama_name = refl

plain_name : normalize_model_name "mistral-7b_Q8_0.GGUF" ≡ "mistral-7b"
unfolding normalize_model_name
plain_name = refl

-- base64, JSON and UTF-8 at one body, which asks for a stream or not.
abbrev coder : Dict Value → Coder
coder json = record {
  encode = λ _. "ew==";
  decode = λ _. some (1 ∷ []);
  parse = λ _. object json;
  text_of = λ _. "Hi";
}

abbrev codec : Codec
codec = record {
  encode = λ _. "ew==";
  decode = λ _. some (1 ∷ []);
  loads = λ _. some (("model", str "m1") ∷ []);
  accepts_type = λ _. true;
  key_text = λ _. none;
  int_of = λ _. none;
}

abbrev wants : Dict Value
wants = ("stream", Value.flag true) ∷ []

abbrev llm : Llm
llm = record {
  respond = λ _. answered 200 [] (1 ∷ []);
  stream = λ _ _. opened 200 [] ((1 ∷ []) ∷ [] ∷ (2 ∷ []) ∷ []) finished;
}

abbrev service : Service
service = Discovery.init (LlmClient.init "http://llm/" none) (some "key-1")

abbrev request : RelayMessage
request = create_request_message "req-1" "POST" "/v1/chat/completions" [] "ew==" none

-- A socket that takes the first message only.
handle_request-Answers_example :
    Answers false request.id service
      (handle_request (coder wants) llm (λ n. leb n 0) "broken" request service)
handle_request-Answers_example =
    handle_request-Answers (coder wants) llm (λ n. leb n 0) "broken" request service false
      (λ h. cc h)

abbrev post : HttpRequest
post = record {
  authorization = some "Bearer sk-1";
  method = "POST";
  path = "/v1/chat/completions";
  content_type = "application/json";
  body = 1 ∷ [];
}

-- A message that carries a key of its own sender.
abbrev carrying : Prepared
carrying = record {
  payload = record {
    method = "POST";
    path = "/v1/chat/completions";
    headers = ("AUTHORIZATION", "Bearer sk-1") ∷ ("Accept", "*/*") ∷ [];
    body = "ew==";
    llm_api_key = none;
  };
  body = some (1 ∷ []);
  is_streaming = false;
}

llm_request-relay_message_example :
    (p : Prepared) × (prepare (coder wants) (relay_message codec env post (some "key-2")) ≡ some p)
    × (llm_request service p (key_or p.payload.llm_api_key service.llm_api_key)
        ≡ expected_request post (some "key-2") service)
    × (p.is_streaming ≡ true)
    × (lookup "AUTHORIZATION"
          (llm_request service carrying (key_or none service.llm_api_key)).headers
        ≡ expected_value "AUTHORIZATION" carrying.payload.headers none service)
unfolding lookup truth
llm_request-relay_message_example =
    llm_request-relay_message codec (coder wants) env post (some "key-2") service 1 [] true carrying
      "AUTHORIZATION" refl refl refl refl

abbrev prepared : Bool → Prepared
prepared b = record {
  payload = record {
    method = "POST";
    path = "/v1/chat/completions";
    headers = [];
    body = "ew==";
    llm_api_key = none;
  };
  body = some (1 ∷ []);
  is_streaming = b;
}

plain_lem : prepare (coder []) request ≡ some (prepared false)
unfolding prepare validate_request create_request_message lookup
plain_lem = refl

streaming_lem : prepare (coder wants) request ≡ some (prepared true)
unfolding prepare validate_request create_request_message lookup truth
streaming_lem = refl

asked_slot : asked.slots 0 ≡ some (future waiting)
unfolding open_connection authenticate authenticate_payload authenticate_legacy enter register
    create_request_message lookup State.init registered insert write send_request enter_request
    create_auth_message validate_auth
asked_slot = refl

asked-Expects : Expects asked "conn-a1" "req-1" 0
asked-Expects = record {
  r = 0;
  c = record seat { pending_requests = ("req-1", 0) ∷ [] };
  is_registered = asked_known;
  entry = asked_entry;
  slot = asked_slot;
}

finish_response-handle_request_example :
    (m : RelayMessage) × ((handle_request
        (coder [])
        llm
        (λ _. true)
        "broken"
        request
        service).messages
      ≡ [] ++ (m ∷ []))
    × (finish_response codec (outcome ((handle_message "conn-a1" m asked).slots 0))
        ≡ expected_response codec 200 (reply_headers []) (1 ∷ []))
unfolding create_request_message Discovery.init
finish_response-handle_request_example =
    finish_response-handle_request codec (coder []) llm (λ _. true) "broken" request service
      (prepared false) asked "conn-a1" 0 200 [] (1 ∷ []) (λ n. refl) plain_lem refl refl
      asked-Expects refl

-- What the connector sends, with a message for another request between.
abbrev arriving : List RelayMessage
arriving =
    create_stream_chunk_message "req-1" "Hi" false
    ∷ create_stream_end_message "req-9"
    ∷ create_stream_chunk_message "req-1" "Hi" false
    ∷ create_stream_end_message "req-1"
    ∷ []

arriving_lem :
    (handle_request (coder wants) llm (λ _. true) "broken" request service).messages
    ≡ [] ++ of_request request.id arriving
unfolding create_request_message Discovery.init handle_request prepare validate_request lookup serve
    answer_stream send_chunks attempt try_in_turn yielded create_stream_chunk_message
    create_stream_end_message truth
arriving_lem = refl

consume-handle_request_example :
    (l : List (Option RelayMessage)) × ((handle_all "conn-a1" arriving streaming).slots 0
      ≡ some (queue l))
    × (consume l ≡ (
      map chunk
          (select truthy (map (coder wants).text_of (yielded ((1 ∷ []) ∷ [] ∷ (2 ∷ []) ∷ [])))),
      complete,
    ))
unfolding create_request_message Discovery.init
consume-handle_request_example =
    consume-handle_request codec (coder wants) llm (λ _. true) "broken" request service
      (prepared true) streaming "conn-a1" 0 200 [] ((1 ∷ []) ∷ [] ∷ (2 ∷ []) ∷ []) arriving
      (λ n. refl) streaming_lem refl refl refl streaming-Waits arriving_lem

-- One request is in flight for two seconds.
abbrev busy : ℕ → List String
busy n = if leb n 1 then "req-1" ∷ [] else []

abbrev idle : RelayServer
idle = State.init [] [] none (some Router.init)
