-- ===== src/ConnectorService/Sent.antt =====
-- What a connector sends where its socket takes every message: connector/main.py, `_handle_request`.
use mathlib.Core.List.{append_assoc}
use remote_llmconnector.Shared.{
  ℕ, String, Bool, true, false, some, List, [], ◌∷◌, ◌++◌, map, ◌≡◌, ap, ◌∙◌, leb,
}
use remote_llmconnector.Protocol.{RelayMessage, create_stream_end_message}
use remote_llmconnector.BrokerApi.Chunks.{stream_messages}
use remote_llmconnector.ConnectorService.LlmClient.{LlmRequest, answered, opened, finished, yielded}
use remote_llmconnector.ConnectorService.Requests.{
  Coder, Llm, Service, attempt, try_in_turn, response_of, answer_reply, chunk_of, send_chunks,
  answer_stream, Prepared, prepare, serve, llm_request, key_or, handle_request, begin,
  after_failure,
}
use remote_llmconnector.ConnectorService.Answers.{attempt-sent}

module _ (up : ℕ → Bool) (k : String) (open_socket : (n : ℕ) → up n ≡ true) where
  try_in_turn-first :
      (m : RelayMessage) (ms : List RelayMessage) (s : Service)
      → (try_in_turn up (m ∷ ms) s).messages ≡ s.messages ++ (m ∷ [])
  unfolding try_in_turn
  try_in_turn-first m ms s =
      let (done, grows) = attempt-sent up k m s (open_socket s.tries) in
      rw (done, try_in_turn) grows

  send_chunks-stream_messages :
      (coder : Coder) (fault : String) (chunks : List (List ℕ)) (s : Service)
      → (send_chunks coder up fault k chunks finished s).messages
        ≡ s.messages
          ++ stream_messages k (map coder.text_of chunks) (create_stream_end_message k ∷ [])
  unfolding send_chunks
  send_chunks-stream_messages coder fault [] s =
      try_in_turn-first (create_stream_end_message k) (after_failure k fault) s
  send_chunks-stream_messages coder fault (chunk ∷ chunks) s =
      let m = chunk_of coder k chunk in
      let (done, grows) = attempt-sent up k m s (open_socket s.tries) in
      let rest = stream_messages k (map coder.text_of chunks) (create_stream_end_message k ∷ []) in
      rw (done, send_chunks)
        (send_chunks-stream_messages coder fault chunks (attempt up m s).1
          ∙ ap (λ l. l ++ rest) grows
          ∙ append_assoc s.messages (m ∷ []) rest)

module _ (coder : Coder) (llm : Llm) (up : ℕ → Bool) (fault : String) (message : RelayMessage)
    (s : Service) (p : Prepared) (open_socket : (n : ℕ) → up n ≡ true)
    (prepared : prepare coder message ≡ some p) where
  abbrev asked : LlmRequest
  asked = llm_request s p (key_or p.payload.llm_api_key s.llm_api_key)

  -- A request that is not a streaming one, and that the LLM answers, is answered with that answer.
  pub handle_request-answered :
      (status : ℕ) (headers : List (String × String)) (body : List ℕ)
      → p.is_streaming ≡ false
      → llm.respond asked ≡ answered status headers body
      → (handle_request coder llm up fault message s).messages
        ≡ s.messages ++ (response_of coder message.id status headers body ∷ [])
  unfolding handle_request serve answer_reply
  handle_request-answered status headers body plain told =
      let k = message.id in
      rw (prepared, handle_request)
        (rw (plain, serve)
          (rw (told, answer_reply)
            (try_in_turn-first up k open_socket (response_of coder k status headers body)
              (after_failure k fault) (begin k s))))

  -- A streaming request, whose stream the LLM opens and ends, is answered with the stream's chunks.
  pub handle_request-streamed :
      (status : ℕ) (headers : List (String × String)) (chunks : List (List ℕ))
      → p.is_streaming ≡ true
      → leb 400 status ≡ false
      → llm.stream 0 asked ≡ opened status headers chunks finished
      → (handle_request coder llm up fault message s).messages
        ≡ s.messages
          ++ stream_messages message.id
              (map coder.text_of (yielded chunks))
              (create_stream_end_message message.id ∷ [])
  unfolding handle_request serve answer_stream
  handle_request-streamed status headers chunks streaming fine told =
      let k = message.id in
      rw (prepared, handle_request)
        (rw (streaming, serve)
          (rw (told, answer_stream)
            (rw fine (
              send_chunks-stream_messages up k open_socket coder fault (yielded chunks)
                (begin k s)))))
