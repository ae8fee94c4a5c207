-- ===== src/ConnectorService/Requests.antt =====
-- connector/main.py, `_handle_request` and the two handlers that it calls. Whether the socket takes
-- the n-th message is an argument (`up`), as is the text of an exception that reaches
-- `_handle_request` (`fault`).
use remote_llmconnector.Shared.{
  Dict, lookup, Value, ℕ, ◌+◌, String, Bool, true, false, Option, none, some, List, [], ◌∷◌, ◌++◌,
  truthy, truth_of, if◌then◌else◌, ◌>>=◌, ◌==◌, contains, is_lower, leb,
}
use remote_llmconnector.Protocol.{
  RelayMessage, RequestPayload, validate_request, create_error_message, create_response_message,
  create_stream_chunk_message, create_stream_end_message,
}
use remote_llmconnector.ConnectorService.LlmClient.{
  LlmClient, LlmRequest, outgoing_request, Reply, answered, timed_out, failed, Stream, opened,
  late_stream, no_stream, StreamEnd, finished, timeout, failure, yielded,
}

-- `json.loads(body)`: an object, a JSONDecodeError, or something whose `get` raises.
pub data Parsed : Type 0 where
  object : Dict Value → Parsed
  malformed : Parsed
  raises : Parsed

-- base64 to and from text, JSON, and UTF-8 with replacements.
pub record Coder : Type 0 where
  pub encode : List ℕ → String
  pub decode : String → Option (List ℕ)
  pub parse : List ℕ → Parsed
  pub text_of : List ℕ → String

-- The LLM server: its answer to a request, and to the n-th streaming request for a message.
pub record Llm : Type 0 where
  pub respond : LlmRequest → Reply
  pub stream : ℕ → LlmRequest → Stream

-- `Connector`, with what it has sent and how often it has tried to.
pub record Service : Type 0 where
  pub llm_client : LlmClient
  pub llm_api_key : Option String
  pub in_flight_requests : List String
  pub messages : List RelayMessage
  pub tries : ℕ

unfoldable pub attempt : (ℕ → Bool) → RelayMessage → Service → Bool × Service
attempt up m s =
    if up s.tries
    then (true, record s { messages = s.messages ++ (m ∷ []); tries = s.tries + 1 })
    else (false, record s { tries = s.tries + 1 })

-- The message of a handler and, where sending it raises, those of the handlers of the exception.
unfoldable pub try_in_turn : (ℕ → Bool) → List RelayMessage → Service → Service
unfolding attempt
try_in_turn up [] s = s
try_in_turn up (m ∷ ms) s =
    let (done, s') = attempt up m s in let rest = try_in_turn up ms s' in if done then s' else rest

abbrev pub late : String → RelayMessage
late k = create_error_message k 504 "Request timeout" "timeout"

abbrev pub unavailable : String → RelayMessage
unavailable k = create_error_message k 502 "LLM server unavailable" "llm_unavailable"

abbrev pub internal : String → String → RelayMessage
internal k fault = create_error_message k 500 fault "internal_error"

-- The messages after a timeout and after another exception.
abbrev pub after_timeout : String → String → List RelayMessage
after_timeout k fault = late k ∷ internal k fault ∷ []

abbrev pub after_failure : String → String → List RelayMessage
after_failure k fault = unavailable k ∷ internal k fault ∷ []

-- The response's headers that are passed on.
unfoldable pub reply_headers : Dict String → Dict String
unfolding is_lower
reply_headers [] = []
reply_headers ((k, v) ∷ d) =
    let rest = reply_headers d in if is_lower k "transfer-encoding" then rest else (k, v) ∷ rest

abbrev pub response_of : Coder → String → ℕ → Dict String → List ℕ → RelayMessage
response_of coder k status headers body =
    create_response_message k status (reply_headers headers) (coder.encode body)

-- `_handle_non_streaming_request`, from the LLM's answer on.
unfoldable pub answer_reply : Coder → String → String → Reply → List RelayMessage
unfolding reply_headers
answer_reply coder fault k (answered status headers body) =
    response_of coder k status headers body ∷ after_failure k fault
answer_reply coder fault k timed_out = after_timeout k fault
answer_reply coder fault k failed = after_failure k fault

abbrev pub chunk_of : Coder → String → List ℕ → RelayMessage
chunk_of coder k chunk = create_stream_chunk_message k (coder.text_of chunk) false

-- The end of the loop over a stream.
abbrev pub end_messages : String → String → StreamEnd → List RelayMessage
end_messages fault k finished = create_stream_end_message k ∷ after_failure k fault
end_messages fault k timeout = after_timeout k fault
end_messages fault k failure = after_failure k fault

-- The loop over the chunks; a chunk that cannot be sent ends it.
unfoldable pub send_chunks :
    Coder → (ℕ → Bool) → String → String → List (List ℕ) → StreamEnd → Service → Service
unfolding attempt try_in_turn
send_chunks coder up fault k [] end s = try_in_turn up (end_messages fault k end) s
send_chunks coder up fault k (chunk ∷ chunks) end s =
    let (done, s') = attempt up (chunk_of coder k chunk) s in
    let rest = send_chunks coder up fault k chunks end s' in
    if done then rest else try_in_turn up (after_failure k fault) s'

unfoldable pub joined : List (List ℕ) → List ℕ
joined [] = []
joined (c ∷ cs) = c ++ joined cs

-- The second request, whose body is the text of the error.
unfoldable pub error_messages : Coder → String → String → ℕ → Stream → List RelayMessage
unfolding joined yielded
error_messages coder fault k status (opened _ _ chunks finished) =
    create_error_message k status (coder.text_of (joined (yielded chunks))) "llm_error"
    ∷ after_failure k fault
error_messages coder fault k status (opened _ _ chunks timeout) = after_timeout k fault
error_messages coder fault k status (opened _ _ chunks failure) = after_failure k fault
error_messages coder fault k status late_stream = after_timeout k fault
error_messages coder fault k status no_stream = after_failure k fault

-- `_handle_streaming_request`, from the LLM's answer on; `again` is its answer to a second request.
unfoldable pub answer_stream :
    Coder → (ℕ → Bool) → String → String → Stream → Stream → Service → Service
unfolding send_chunks error_messages yielded
answer_stream coder up fault k (opened status headers chunks end) again s =
    if leb 400 status
    then try_in_turn up (error_messages coder fault k status again) s
    else send_chunks coder up fault k (yielded chunks) end s
answer_stream coder up fault k late_stream again s = try_in_turn up (after_timeout k fault) s
answer_stream coder up fault k no_stream again s = try_in_turn up (after_failure k fault) s

-- `payload.llm_api_key or self.config.llm_api_key`
abbrev pub key_or : Option String → Option String → Option String
key_or none configured = configured
key_or (some key) configured = if truthy key then some key else configured

-- What `_handle_request` makes of a message before it asks the LLM; `none` is an exception.
pub record Prepared : Type 0 where
  pub payload : RequestPayload
  pub body : Option (List ℕ)
  pub is_streaming : Bool

abbrev pub decode_body : Coder → String → Option (Option (List ℕ))
decode_body coder body =
    if truthy body then (do bytes ← coder.decode body; some (some bytes)) else some none

abbrev pub streaming_of : Parsed → Option Bool
streaming_of (object d) = some (truth_of (lookup "stream" d))
streaming_of malformed = some false
streaming_of raises = none

abbrev pub wants_stream : Coder → Option (List ℕ) → Option Bool
wants_stream coder none = some false
wants_stream coder (some []) = some false
wants_stream coder (some (b ∷ bs)) = streaming_of (coder.parse (b ∷ bs))

unfoldable pub prepare : Coder → RelayMessage → Option Prepared
unfolding validate_request lookup
prepare coder message = do
  payload ← validate_request message.payload
  body ← decode_body coder payload.body
  is_streaming ← wants_stream coder body
  some (record { payload = payload; body = body; is_streaming = is_streaming })

-- The request for the LLM. The second request of the streaming handler has no key.
abbrev pub llm_request : Service → Prepared → Option String → LlmRequest
llm_request s p key =
    outgoing_request s.llm_client p.payload.method p.payload.path p.payload.headers p.body key

unfoldable pub serve : Coder → Llm → (ℕ → Bool) → String → String → Prepared → Service → Service
unfolding answer_reply answer_stream try_in_turn outgoing_request
serve coder llm up fault k p s =
    let request = llm_request s p (key_or p.payload.llm_api_key s.llm_api_key) in
    if p.is_streaming
    then answer_stream coder up fault k (llm.stream 0 request) (llm.stream 1 (llm_request s p none))
        s
    else try_in_turn up (answer_reply coder fault k (llm.respond request)) s

abbrev pub serve_or_fail :
    Coder → Llm → (ℕ → Bool) → String → String → Option Prepared → Service → Service
serve_or_fail coder llm up fault k none s = try_in_turn up (internal k fault ∷ []) s
serve_or_fail coder llm up fault k (some p) s = serve coder llm up fault k p s

-- The set of correlation ids.
abbrev pub add : String → List String → List String
add k ids = if contains k ids then ids else k ∷ ids

unfoldable pub discard : String → List String → List String
discard k [] = []
discard k (j ∷ ids) = let rest = discard k ids in if j == k then rest else j ∷ rest

abbrev pub begin : String → Service → Service
begin k s = record s { in_flight_requests = add k s.in_flight_requests }

abbrev pub end : String → Service → Service
end k s = record s { in_flight_requests = discard k s.in_flight_requests }

unfoldable pub handle_request : Coder → Llm → (ℕ → Bool) → String → RelayMessage → Service → Service
unfolding prepare serve discard
handle_request coder llm up fault message s =
    end message.id
      (serve_or_fail coder llm up fault message.id (prepare coder message) (begin message.id s))
