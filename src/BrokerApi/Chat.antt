-- ===== src/BrokerApi/Chat.antt =====
-- broker/api.py, `_handle_chat_completions` and `_handle_non_streaming_response`. The router that
-- the API reads is the one that the relay server's callbacks update.
use Prim.Native.String.{◌++◌ as append}
use remote_llmconnector.Shared.{
  truth, truth_of, field, Dict, lookup, Value, str, number, Env, ℕ, String, Bool, true, false,
  Option, none, some, List, [], ◌∷◌, truthy, if◌then◌else◌, ◌>>=◌, as_text_or, as_table,
}
use remote_llmconnector.Protocol.{MessageType, RelayMessage, create_request_message}
use remote_llmconnector.Router.{ModelRouter, get_route}
use remote_llmconnector.RelayServer.State.{RelayServer, registered}
use remote_llmconnector.RelayServer.Requests.{
  Started, key_error, send_error, waits, send_request, send_request_streaming, Response, response,
  connection_error, timeout_error,
}
use remote_llmconnector.BrokerApi.Responses.{
  HttpRequest, HttpResponse, raw_body, Codec, create_error_response, internal_error,
}
use remote_llmconnector.BrokerApi.UserKeys.{validate_user_api_key}

-- What a handler has come to: a reply, or a wait for the connector, on a slot of a registration.
pub data Chat : Type 0 where
  replied : HttpResponse → Chat
  awaits_response : ℕ → ℕ → Chat
  awaits_stream : ℕ → ℕ → Chat

abbrev pub unauthorized : String → HttpResponse
unauthorized message =
    create_error_response 401 message "authentication_error" (some "invalid_api_key")

abbrev pub missing_model : HttpResponse
missing_model =
    create_error_response 400 "Missing 'model' field in request" "invalid_request_error"
      (some "missing_model")

abbrev pub model_not_found : String → HttpResponse
model_not_found model =
    create_error_response 404 (append "Model '" (append model "' not found"))
      "invalid_request_error" (some "model_not_found")

abbrev pub connector_unavailable : String → HttpResponse
connector_unavailable model =
    create_error_response 503 (append "No active connector for model '" (append model "'"))
      "service_unavailable" (some "connector_unavailable")

abbrev pub bad_gateway : HttpResponse
bad_gateway =
    create_error_response 502 "Connector unavailable" "bad_gateway" (some "connector_unavailable")

abbrev pub gateway_timeout : HttpResponse
gateway_timeout = create_error_response 504 "Request timeout" "timeout" (some "timeout")

-- How a non-streaming request starts; a KeyError is an internal error.
abbrev pub start_response : Started × RelayServer → Chat × RelayServer
start_response (key_error, s) = (replied internal_error, s)
start_response (send_error, s) = (replied bad_gateway, s)
start_response (waits r slot, s) = (awaits_response r slot, s)

-- How a streaming request starts. Where the socket fails, the event that is written to the response
-- that was never prepared raises, which is suppressed, and the empty response is returned.
abbrev pub empty_stream : HttpResponse
empty_stream = record {
  status = 200;
  content_type = "text/event-stream";
  headers = ("Cache-Control", "no-cache") ∷ ("Connection", "keep-alive") ∷ [];
  body = raw_body [];
}

abbrev pub start_stream : Started × RelayServer → Chat × RelayServer
start_stream (key_error, s) = (replied internal_error, s)
start_stream (send_error, s) = (replied empty_stream, s)
start_stream (waits r slot, s) = (awaits_stream r slot, s)

-- `request.content_type or "application/json"`
abbrev pub content_type_or_json : String → String
content_type_or_json t = if truthy t then t else "application/json"

abbrev pub relay_message : Codec → Env → HttpRequest → Option String → RelayMessage
relay_message codec e request llm_api_key =
    create_request_message (append "req-" e.hex) request.method request.path
      (("content-type", content_type_or_json request.content_type) ∷ []) (codec.encode request.body)
      llm_api_key

-- From the route on: the connector must still be there, and the request goes out.
unfoldable pub forward :
    Codec
    → Env
    → Bool
    → HttpRequest
    → Bool
    → String
    → String
    → Option String
    → RelayServer
    → Chat × RelayServer
unfolding send_request send_request_streaming registered
forward codec e up request streaming model connector_id llm_api_key s =
    elim (registered s connector_id) [
      | none ↦ (replied (connector_unavailable model), s)
      | some _ ↦
          let message = relay_message codec e request llm_api_key in
          if streaming
          then start_stream (send_request_streaming up connector_id message s)
          else start_response (send_request up connector_id message s)
    ]

abbrev pub unrouted : Option String → HttpResponse
unrouted none = internal_error
unrouted (some model) = model_not_found model

-- A model that is no text has no route; one that cannot be a dict's key raises.
unfoldable pub route_value :
    Codec → Env → Bool → HttpRequest → Bool → Value → ModelRouter → RelayServer → Chat × RelayServer
unfolding forward get_route
route_value codec e up request streaming (str model) r s = elim (get_route r model) [
  | none ↦ (replied (model_not_found model), s)
  | some (connector_id, llm_api_key) ↦
      forward codec e up request streaming model connector_id llm_api_key s
]
route_value codec e up request streaming v r s = (replied (unrouted (codec.key_text v)), s)

-- `if not model:` and what follows.
abbrev pub route_model :
    Codec
    → Env
    → Bool
    → HttpRequest
    → Bool
    → Option Value
    → ModelRouter
    → RelayServer
    → Chat × RelayServer
route_model codec e up request streaming none r s = (replied missing_model, s)
route_model codec e up request streaming (some v) r s =
    if truth v then route_value codec e up request streaming v r s else (replied missing_model, s)

-- `_handle_chat_completions` up to its wait for the connector.
unfoldable pub handle_chat_completions :
    List String → Codec → Env → Bool → HttpRequest → ModelRouter → RelayServer → Chat × RelayServer
unfolding validate_user_api_key route_value truth
handle_chat_completions user_api_keys codec e up request r s =
    elim (validate_user_api_key user_api_keys request.authorization) [
      | some message ↦ (replied (unauthorized message), s)
      | none ↦
          let json = codec.loads request.body in
          route_model codec e up request (truth_of (field "stream" json)) (field "model" json) r s
    ]

-- A status as aiohttp takes it: `int()` of a number, a text or a Boolean; other values raise.
abbrev pub number_or : Codec → Option Value → ℕ → Option ℕ
number_or codec none d = some d
number_or codec (some (number n)) d = some n
number_or codec (some (str t)) d = codec.int_of t
number_or codec (some (Value.flag b)) d = some (if b then 1 else 0)
number_or codec (some _) d = none

-- The connector's ERROR message as a response; its code is the error's type too.
unfoldable pub error_reply : Codec → Dict Value → Option HttpResponse
unfolding create_error_response
error_reply codec p = do
  status ← number_or codec (lookup "status" p) 500
  message ← as_text_or (lookup "error" p) "Unknown error"
  code ← as_text_or (lookup "code" p) "unknown"
  some (create_error_response status message code (some code))

-- `response.payload.get("headers", {})`
abbrev pub headers_of : Option Value → Option (Dict String)
headers_of none = some []
headers_of (some v) = as_table (some v)

-- The headers that are copied.
abbrev pub copied : Dict String → Dict String
copied headers = elim (lookup "x-request-id" headers) [
  | none ↦ []
  | some v ↦ ("x-request-id", v) ∷ []
]

abbrev pub get_or_json : Option String → String
get_or_json none = "application/json"
get_or_json (some t) = t

abbrev pub typed_reply : Codec → ℕ → Dict String → List ℕ → String → Option HttpResponse
typed_reply codec status headers body content_type =
    if codec.accepts_type content_type
    then some (record {
      status = status;
      content_type = content_type;
      headers = copied headers;
      body = raw_body body;
    })
    else none

-- The connector's response; `none` is an exception.
unfoldable pub plain_reply : Codec → Dict Value → Option HttpResponse
plain_reply codec p = do
  status ← number_or codec (lookup "status" p) 200
  headers ← headers_of (lookup "headers" p)
  encoded ← as_text_or (lookup "body" p) ""
  body ← codec.decode encoded
  typed_reply codec status headers body (get_or_json (lookup "content-type" headers))

abbrev pub is_error : MessageType → Bool
is_error MessageType.error = true
is_error _ = false

abbrev pub or_internal : Option HttpResponse → HttpResponse
or_internal none = internal_error
or_internal (some r) = r

-- `_handle_non_streaming_response` after its wait, with the outer handler of other exceptions.
unfoldable pub finish_response : Codec → Response → HttpResponse
unfolding error_reply plain_reply
finish_response codec (response m) =
    or_internal
      (if is_error m.type then error_reply codec m.payload else plain_reply codec m.payload)
finish_response codec connection_error = bad_gateway
finish_response codec timeout_error = gateway_timeout
