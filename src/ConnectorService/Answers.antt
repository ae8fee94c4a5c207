-- ===== src/ConnectorService/Answers.antt =====
-- A request to a connector is answered once: connector/main.py, `_handle_request`.
use remote_llmconnector.Shared.{
  ℕ, String, Bool, true, false, not, ◌&&◌, Option, none, some, List, [], ◌∷◌, ◌++◌, ◌≡◌, refl, sym,
  ap, ◌∙◌, arith, ◌==◌, eq_iff, Bool-cases, inl, inr, if◌then◌else◌, leb,
}
use mathlib.Core.List.{append_assoc, append-nil}
use remote_llmconnector.Protocol.{
  MessageType, RelayMessage, create_error_message, create_response_message,
  create_stream_chunk_message, create_stream_end_message,
}
use remote_llmconnector.ConnectorService.LlmClient.{
  Reply, answered, timed_out, failed, Stream, opened, late_stream, no_stream, StreamEnd, finished,
  timeout, failure, yielded,
}
use remote_llmconnector.ConnectorService.Requests.{
  Coder, Llm, Service, attempt, try_in_turn, internal, after_timeout, after_failure, answer_reply,
  chunk_of, end_messages, send_chunks, error_messages, answer_stream, Prepared, prepare, serve,
  llm_request, key_or, serve_or_fail, begin, handle_request,
}

abbrev is_last_type : MessageType → Bool
is_last_type MessageType.response = true
is_last_type MessageType.error = true
is_last_type MessageType.stream_end = true
is_last_type _ = false

abbrev is_chunk_type : MessageType → Bool
is_chunk_type MessageType.stream_chunk = true
is_chunk_type _ = false

-- A message that ends the request, and one that does not.
abbrev pub is_last : String → RelayMessage → Bool
is_last k m = m.id == k && is_last_type m.type

abbrev pub is_chunk : String → RelayMessage → Bool
is_chunk k m = m.id == k && is_chunk_type m.type

abbrev is_nil : List RelayMessage → Bool
is_nil [] = true
is_nil (m ∷ ms) = false

-- Chunks of the request, then one message that ends it, and nothing after that; where the answer
-- need not be whole, the end may be missing.
unfoldable pub is_answer : Bool → String → List RelayMessage → Bool
is_answer whole k [] = not whole
is_answer whole k (m ∷ ms) = if is_last k m then is_nil ms else is_chunk k m && is_answer whole k ms

-- What an operation sends for the request.
pub record Answers (whole : Bool) (k : String) (s t : Service) : Type 0 where
  pub sends : List RelayMessage
  pub grows : t.messages ≡ s.messages ++ sends
  pub shape : is_answer whole k sends ≡ true

abbrev all_last : String → List RelayMessage → Bool
all_last k [] = true
all_last k (m ∷ ms) = is_last k m && all_last k ms

module _ (up : ℕ → Bool) (k : String) where
  pub attempt-sent :
      (m : RelayMessage) (s : Service)
      → up s.tries ≡ true
      → ((attempt up m s).0 ≡ true) × ((attempt up m s).1.messages ≡ s.messages ++ (m ∷ []))
  unfolding attempt
  attempt-sent m s h = rw (h, attempt) (refl, refl)

  attempt-lost :
      (m : RelayMessage) (s : Service)
      → up s.tries ≡ false
      → ((attempt up m s).0 ≡ false) × ((attempt up m s).1.messages ≡ s.messages)
  unfolding attempt
  attempt-lost m s h = rw (h, attempt) (refl, refl)

  try_in_turn-Answers :
      (whole : Bool) (ms : List RelayMessage) (s : Service)
      → (whole ≡ true → up s.tries ≡ true)
      → (whole ≡ true → is_nil ms ≡ false)
      → all_last k ms ≡ true
      → Answers whole k s (try_in_turn up ms s)
  unfolding try_in_turn is_answer
  try_in_turn-Answers whole [] s u n l = record {
    sends = [];
    grows = sym (append-nil s.messages);
    shape = ground arith;
  }
  try_in_turn-Answers whole (m ∷ ms) s u n l = elim (Bool-cases (up s.tries)) [
    | inl x ↦
        let (done, grows) = attempt-sent m s x in
        rw (done, try_in_turn) (record { sends = m ∷ []; grows = grows; shape = ground arith })
    | inr x ↦
        let (lost, same) = attempt-lost m s x in
        let partly : whole ≡ false = ground arith in
        let rest =
          try_in_turn-Answers false ms (attempt up m s).1 (λ h. cc) (λ h. cc) (ground arith) in
        rw (lost, try_in_turn, partly)
          (record { sends = rest.sends; grows = rest.grows ∙ rw same refl; shape = rest.shape })
  ]

  after_failure-last : (fault : String) → all_last k (after_failure k fault) ≡ true
  unfolding create_error_message
  after_failure-last fault = rw ((eq_iff k k).1 refl) refl

  after_timeout-last : (fault : String) → all_last k (after_timeout k fault) ≡ true
  unfolding create_error_message
  after_timeout-last fault = rw ((eq_iff k k).1 refl) refl

  end_messages-last :
      (fault : String) (e : StreamEnd)
      → (all_last k (end_messages fault k e) ≡ true) × (is_nil (end_messages fault k e) ≡ false)
  unfolding create_stream_end_message
  end_messages-last fault finished = (rw ((eq_iff k k).1 refl) (after_failure-last fault), refl)
  end_messages-last fault timeout = (after_timeout-last fault, refl)
  end_messages-last fault failure = (after_failure-last fault, refl)

  answer_reply-last :
      (coder : Coder) (fault : String) (r : Reply)
      → (all_last k (answer_reply coder fault k r) ≡ true)
        × (is_nil (answer_reply coder fault k r) ≡ false)
  unfolding answer_reply create_response_message
  answer_reply-last coder fault (answered status headers body) =
      (rw ((eq_iff k k).1 refl) (after_failure-last fault), refl)
  answer_reply-last coder fault timed_out = (after_timeout-last fault, refl)
  answer_reply-last coder fault failed = (after_failure-last fault, refl)

  error_messages-last :
      (coder : Coder) (fault : String) (status : ℕ) (again : Stream)
      → (all_last k (error_messages coder fault k status again) ≡ true)
        × (is_nil (error_messages coder fault k status again) ≡ false)
  unfolding error_messages create_error_message
  error_messages-last coder fault status (opened n h chunks finished) =
      (rw ((eq_iff k k).1 refl) refl, refl)
  error_messages-last coder fault status (opened n h chunks timeout) =
      (after_timeout-last fault, refl)
  error_messages-last coder fault status (opened n h chunks failure) =
      (after_failure-last fault, refl)
  error_messages-last coder fault status late_stream = (after_timeout-last fault, refl)
  error_messages-last coder fault status no_stream = (after_failure-last fault, refl)

  -- The rest of an answer, after a chunk.
  chunk-Answers :
      (whole : Bool) (coder : Coder) (chunk : List ℕ) (s t u : Service)
      → t.messages ≡ s.messages ++ (chunk_of coder k chunk ∷ [])
      → Answers whole k t u
      → Answers whole k s u
  unfolding is_answer create_stream_chunk_message
  chunk-Answers whole coder chunk s t u h a = record {
    sends = chunk_of coder k chunk ∷ a.sends;
    grows = a.grows ∙ rw h (append_assoc s.messages (chunk_of coder k chunk ∷ []) a.sends);
    shape = rw ((eq_iff k k).1 refl) (a.shape);
  }

  same-Answers :
      (whole : Bool) (s t u : Service)
      → t.messages ≡ s.messages
      → Answers whole k t u
      → Answers whole k s u
  same-Answers whole s t u h a = record {
    sends = a.sends;
    grows = a.grows ∙ ap (λ l. l ++ a.sends) h;
    shape = a.shape;
  }

  module _ (whole : Bool) (h : whole ≡ true → (n : ℕ) → up n ≡ true) where
    some_messages-Answers :
        (ms : List RelayMessage) (s : Service)
        → all_last k ms ≡ true
        → is_nil ms ≡ false
        → Answers whole k s (try_in_turn up ms s)
    some_messages-Answers ms s l n = try_in_turn-Answers whole ms s (λ e. h e s.tries) (λ e. n) l

    send_chunks-Answers :
        (coder : Coder) (fault : String) (chunks : List (List ℕ)) (e : StreamEnd) (s : Service)
        → Answers whole k s (send_chunks coder up fault k chunks e s)
    unfolding send_chunks
    send_chunks-Answers coder fault [] e s =
        let (l, n) = end_messages-last fault e in
        some_messages-Answers (end_messages fault k e) s l n
    send_chunks-Answers coder fault (chunk ∷ chunks) e s =
        let m = chunk_of coder k chunk in
        let t = (attempt up m s).1 in
        elim (Bool-cases (up s.tries)) [
          | inl x ↦
              let (done, grows) = attempt-sent m s x in
              rw (done, send_chunks)
                (chunk-Answers whole coder chunk s t (send_chunks coder up fault k chunks e t) grows
                  (send_chunks-Answers coder fault chunks e t))
          | inr x ↦
              let (lost, same) = attempt-lost m s x in
              rw (lost, send_chunks)
                (same-Answers whole s t (try_in_turn up (after_failure k fault) t) same
                  (some_messages-Answers (after_failure k fault) t (after_failure-last fault) refl))
        ]

    answer_stream-Answers :
        (coder : Coder) (fault : String) (stream again : Stream) (s : Service)
        → Answers whole k s (answer_stream coder up fault k stream again s)
    unfolding answer_stream
    answer_stream-Answers coder fault (opened status headers chunks e) again s =
        elim (Bool-cases (leb 400 status)) [
          | inl x ↦
              let (l, n) = error_messages-last coder fault status again in
              rw x (some_messages-Answers (error_messages coder fault k status again) s l n)
          | inr x ↦ rw x (send_chunks-Answers coder fault (yielded chunks) e s)
        ]
    answer_stream-Answers coder fault late_stream again s =
        some_messages-Answers (after_timeout k fault) s (after_timeout-last fault) refl
    answer_stream-Answers coder fault no_stream again s =
        some_messages-Answers (after_failure k fault) s (after_failure-last fault) refl

    serve_or_fail-Answers :
        (coder : Coder) (llm : Llm) (fault : String) (p : Option Prepared) (s : Service)
        → Answers whole k s (serve_or_fail coder llm up fault k p s)
    unfolding serve create_error_message
    serve_or_fail-Answers coder llm fault none s =
        some_messages-Answers (internal k fault ∷ []) s (rw ((eq_iff k k).1 refl) refl) refl
    serve_or_fail-Answers coder llm fault (some p) s =
        let request = llm_request s p (key_or p.payload.llm_api_key s.llm_api_key) in
        elim (Bool-cases p.is_streaming) [
          | inl x ↦
              rw (x, serve)
                (answer_stream-Answers coder fault (llm.stream 0 request)
                  (llm.stream 1 (llm_request s p none)) s)
          | inr x ↦
              let (l, n) = answer_reply-last coder fault (llm.respond request) in
              rw (x, serve)
                (some_messages-Answers (answer_reply coder fault k (llm.respond request)) s l n)
        ]

-- Whatever the request and the LLM's answer, and whichever messages the socket takes, a connector
-- sends chunks of the request, at most one message that ends it, and nothing after that one. Where
-- the socket takes every message (`whole`), the message that ends it is sent: each request is
-- answered once.
pub handle_request-Answers :
    (coder : Coder) (llm : Llm) (up : ℕ → Bool) (fault : String) (message : RelayMessage)
    (s : Service) (whole : Bool)
    → (whole ≡ true → (n : ℕ) → up n ≡ true)
    → Answers whole message.id s (handle_request coder llm up fault message s)
unfolding handle_request
handle_request-Answers coder llm up fault message s whole h =
    let k = message.id in
    let a =
      serve_or_fail-Answers up k whole h coder llm fault (prepare coder message) (begin k s) in
    record { sends = a.sends; grows = a.grows; shape = a.shape }
