-- ===== src/Journey/Back.antt =====
-- From the LLM's answer to the HTTP API's response: `_handle_request` of connector/main.py,
-- `_handle_message` and `send_request` of broker/relay_server.py, and the handlers of broker/api.py
-- after their waits.
use mathlib.Core.List.{append_cancel_left}
use remote_llmconnector.Shared.{
  Dict, lookup, write, ℕ, String, Bool, true, false, Option, some, List, [], ◌∷◌, ◌++◌, map, ◌≡◌,
  refl, ap, sym, ◌∙◌, arith, truthy, select, leb, if◌then◌else◌, Bool-cases, inl, inr,
}
use remote_llmconnector.Protocol.{RelayMessage, create_response_message, create_stream_end_message}
use remote_llmconnector.RelayServer.State.{
  RelayServer, ConnectorRegistration, future, queue, waiting, result, registered,
}
use remote_llmconnector.RelayServer.Connection.{handle_message, answer, deliver}
use remote_llmconnector.RelayServer.Requests.{response, outcome}
use remote_llmconnector.RelayServer.Queues.{Waits, handle_all}
use remote_llmconnector.BrokerApi.Responses.{HttpResponse, raw_body, Codec, internal_error}
use remote_llmconnector.BrokerApi.Chat.{finish_response, plain_reply, get_or_json, copied}
use remote_llmconnector.BrokerApi.Streaming.{chunk, complete, consume}
use remote_llmconnector.BrokerApi.Chunks.{of_request, stream_messages, consume-complete}
use remote_llmconnector.ConnectorService.LlmClient.{answered, opened, finished, yielded}
use remote_llmconnector.ConnectorService.Requests.{
  Coder, Llm, Service, Prepared, prepare, llm_request, key_or, reply_headers, response_of,
  handle_request,
}
use remote_llmconnector.ConnectorService.Sent.{handle_request-answered, handle_request-streamed}

-- A future of the connector's, for the request `k`.
pub record Expects (s : RelayServer) (i k : String) (q : ℕ) : Type 0 where
  pub r : ℕ
  pub c : ConnectorRegistration
  pub is_registered : registered s i ≡ some (r, c)
  pub entry : lookup k c.pending_requests ≡ some q
  pub slot : s.slots q ≡ some (future waiting)

handle_message-result :
    (s : RelayServer) (i k : String) (q status : ℕ) (headers : Dict String) (body : String)
    → Expects s i k q
    → let m = create_response_message k status headers body in
      (handle_message i m s).slots q ≡ some (future (result m))
unfolding handle_message answer deliver write create_response_message
handle_message-result s i k q status headers body x =
    rw (x.is_registered, handle_message) (rw (x.entry) (rw (x.slot) (ground arith)))

-- The API's answer to a response: the status, the content type in small letters or JSON, and the
-- body; an internal error where aiohttp does not take the content type.
abbrev pub expected_response : Codec → ℕ → Dict String → List ℕ → HttpResponse
expected_response codec status headers body =
    let content_type = get_or_json (lookup "content-type" headers) in
    if codec.accepts_type content_type
    then record {
      status = status;
      content_type = content_type;
      headers = copied headers;
      body = raw_body body;
    }
    else internal_error

-- What the API makes of a response with a body that decodes.
finish_response-response :
    (codec : Codec) (k : String) (status : ℕ) (headers : Dict String) (encoded : String)
    (body : List ℕ)
    → codec.decode encoded ≡ some body
    → finish_response codec (response (create_response_message k status headers encoded))
      ≡ expected_response codec status headers body
unfolding finish_response plain_reply create_response_message lookup
finish_response-response codec k status headers encoded body decodes =
    elim (Bool-cases (codec.accepts_type (get_or_json (lookup "content-type" headers)))) [
      | inl x ↦ rw decodes (rw x refl)
      | inr x ↦ rw decodes (rw x refl)
    ]

module _ (codec : Codec) (coder : Coder) (llm : Llm) (up : ℕ → Bool) (fault : String)
    (message : RelayMessage) (connector : Service) (p : Prepared) (s : RelayServer) (i : String)
    (q : ℕ) where
  -- Where the LLM answers a request that is not a streaming one, the connector, whose socket takes
  -- what it sends, sends one message; and the API, which waits for the request's future, replies
  -- with the LLM's status, its body, and the content type that stands under `content-type` in small
  -- letters, or JSON; or with its internal error where aiohttp does not take that content type, as one
  -- with a charset. (base64 gives back the bytes that it was given.)
  pub finish_response-handle_request :
      (status : ℕ) (headers : Dict String) (body : List ℕ)
      → ((n : ℕ) → up n ≡ true)
      → prepare coder message ≡ some p
      → p.is_streaming ≡ false
      → llm.respond (llm_request connector p (key_or p.payload.llm_api_key connector.llm_api_key))
        ≡ answered status headers body
      → Expects s i message.id q
      → codec.decode (coder.encode body) ≡ some body
      → (m : RelayMessage) × ((handle_request coder llm up fault message connector).messages
          ≡ connector.messages ++ (m ∷ []))
        × (finish_response codec (outcome ((handle_message i m s).slots q))
            ≡ expected_response codec status (reply_headers headers) body)
  unfolding outcome
  finish_response-handle_request status headers body opens prepared plain told expects decodes =
      let k = message.id in
      let encoded = coder.encode body in
      (
        response_of coder k status headers body,
        handle_request-answered coder llm up fault message connector p opens prepared status headers
            body plain told,
        ap (λ x. finish_response codec (outcome x))
              (handle_message-result s i k q status (reply_headers headers) encoded expects)
            ∙ finish_response-response codec k status (reply_headers headers) encoded body decodes,
      )

  -- Where the LLM opens a stream and ends it, and the connector's socket takes what it sends: whatever
  -- else arrives from the connector, if its messages for this request are the ones that it sent, the
  -- API's client gets the text of every chunk, in order and without the empty ones, and then the end
  -- of a complete stream.
  pub consume-handle_request :
      (status : ℕ) (headers : Dict String) (chunks : List (List ℕ)) (ms : List RelayMessage)
      → ((n : ℕ) → up n ≡ true)
      → prepare coder message ≡ some p
      → p.is_streaming ≡ true
      → leb 400 status ≡ false
      → llm.stream 0 (llm_request connector p (key_or p.payload.llm_api_key connector.llm_api_key))
        ≡ opened status headers chunks finished
      → Waits s i message.id q []
      → (handle_request coder llm up fault message connector).messages
        ≡ connector.messages ++ of_request message.id ms
      → (l : List (Option RelayMessage)) × ((handle_all i ms s).slots q ≡ some (queue l))
        × (consume l ≡ (map chunk (select truthy (map coder.text_of (yielded chunks))), complete))
  consume-handle_request status headers chunks ms opens prepared streaming fine told waits arrived =
      let texts = map coder.text_of (yielded chunks) in
      let whole = stream_messages message.id texts (create_stream_end_message message.id ∷ []) in
      consume-complete s i message.id q waits ms texts [] (
        append_cancel_left connector.messages (of_request message.id ms) whole (
          sym arrived
          ∙ handle_request-streamed coder llm up fault message connector p opens prepared status
              headers chunks streaming fine told))
