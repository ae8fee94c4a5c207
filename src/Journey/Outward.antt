-- ===== src/Journey/Outward.antt =====
-- From the HTTP API's request to the connector's request to the LLM: `_handle_chat_completions` of
-- broker/api.py, `_handle_request` of connector/main.py, and connector/llm_client.py.
use Prim.Native.String.{◌++◌ as append}
use remote_llmconnector.Shared.{
  Env, ℕ, String, Bool, true, Option, some, List, [], ◌∷◌, ◌≡◌, ◌∙◌, refl, ap, sym, truthy, lookup,
}
use remote_llmconnector.Protocol.{RelayMessage, RequestPayload, validate_request}
use remote_llmconnector.Protocol.Roundtrip.{validate-create_request}
use remote_llmconnector.BrokerApi.Responses.{HttpRequest, Codec}
use remote_llmconnector.BrokerApi.Chat.{relay_message, content_type_or_json}
use remote_llmconnector.ConnectorService.LlmClient.{outgoing_request}
use remote_llmconnector.Journey.Headers.{
  expected_request, expected_value, headers_lem, lookup-outgoing_request,
}
use remote_llmconnector.ConnectorService.Requests.{
  Coder, Service, Prepared, prepare, streaming_of, llm_request, key_or,
}

prepare-of_payload :
    (coder : Coder) (message : RelayMessage) (payload : RequestPayload) (b : ℕ) (bs : List ℕ)
    (streaming : Bool)
    → validate_request message.payload ≡ some payload
    → truthy payload.body ≡ true
    → coder.decode payload.body ≡ some (b ∷ bs)
    → streaming_of (coder.parse (b ∷ bs)) ≡ some streaming
    → prepare coder message
      ≡ some (record { payload = payload; body = some (b ∷ bs); is_streaming = streaming })
unfolding prepare
prepare-of_payload coder message payload b bs streaming valid filled decodes parses =
    rw (valid, prepare) (rw filled (rw decodes (rw parses refl)))

-- The request that a connector makes to the LLM server has the method, the path and the body of the
-- request that the HTTP API got, and no headers but its content type, the configured Host, and the
-- key that the broker's route carries or, without one, the connector's own: the Authorization header
-- of the API's user goes no further than the broker. It is a streaming request exactly if its body says so.
-- And whatever headers any message carries, the LLM gets from the connector, under every name, what
-- the connector sets (Host and Authorization), or else what the message carries, but no header of
-- the message whose name is Host, Connection or Authorization in whatever case. (base64 gives back
-- the bytes that it was given, which are not empty.)
pub llm_request-relay_message :
    (codec : Codec) (coder : Coder) (e : Env) (request : HttpRequest) (key : Option String)
    (s : Service) (b : ℕ) (bs : List ℕ) (streaming : Bool) (any : Prepared) (name : String)
    → request.body ≡ b ∷ bs
    → truthy (codec.encode (b ∷ bs)) ≡ true
    → coder.decode (codec.encode (b ∷ bs)) ≡ some (b ∷ bs)
    → streaming_of (coder.parse (b ∷ bs)) ≡ some streaming
    → (p : Prepared) × (prepare coder (relay_message codec e request key) ≡ some p)
      × (llm_request s p (key_or p.payload.llm_api_key s.llm_api_key)
          ≡ expected_request request key s)
      × (p.is_streaming ≡ streaming)
      × (lookup name (llm_request s any (key_or any.payload.llm_api_key s.llm_api_key)).headers
          ≡ expected_value name any.payload.headers any.payload.llm_api_key s)
unfolding outgoing_request
llm_request-relay_message codec coder e request key s b bs streaming any name body filled decodes
      parses =
    let headers = ("content-type", content_type_or_json request.content_type) ∷ [] in
    let payload : RequestPayload = record {
      method = request.method;
      path = request.path;
      headers = headers;
      body = codec.encode request.body;
      llm_api_key = key;
    } in
    (
      record { payload = payload; body = some (b ∷ bs); is_streaming = streaming },
      prepare-of_payload coder (relay_message codec e request key) payload b bs streaming
          (validate-create_request (append "req-" e.hex) request.method request.path headers
            (codec.encode request.body) key)
          (rw body filled) (rw body decodes) parses,
      ap
            (λ x.
              outgoing_request s.llm_client request.method request.path headers (some x)
                (key_or key s.llm_api_key))
            (sym body)
          ∙ ap
              (λ d. record {
                method = request.method;
                url = append s.llm_client.base_url request.path;
                headers = d;
                body = some request.body;
              })
              (headers_lem (content_type_or_json request.content_type) s.llm_client.host_header key
                s.llm_api_key),
      refl,
      lookup-outgoing_request s any.payload.method any.payload.path any.payload.headers any.body
          any.payload.llm_api_key name,
    )
