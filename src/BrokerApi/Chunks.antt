-- ===== src/BrokerApi/Chunks.antt =====
-- A streamed answer from the connector's messages to the bytes of the HTTP response: the handling
-- of broker/relay_server.py and the loop of `_handle_streaming_response` in broker/api.py together.
use remote_llmconnector.Shared.{
  lookup, ℕ, String, false, Option, some, List, [], ◌∷◌, ◌++◌, map, ◌≡◌, refl, ◌∙◌, arith, ◌==◌,
  eq_iff, truthy, select, Bool-cases, inl, inr,
}
use mathlib.Core.List.{append-nil}
use remote_llmconnector.Protocol.{
  RelayMessage, create_stream_chunk_message, create_stream_end_message, create_error_message,
}
use remote_llmconnector.RelayServer.State.{RelayServer, queue}
use remote_llmconnector.RelayServer.Queues.{handle_all, stream_of, Waits}
use remote_llmconnector.RelayServer.Streams.{handle_all-stream_of}
use remote_llmconnector.BrokerApi.Streaming.{
  Written, chunk, error_event, End, complete, failed, read_message, consume,
}

-- The messages of one request.
abbrev pub of_request : String → List RelayMessage → List RelayMessage
of_request k ms = select (λ m. m.id == k) ms

-- What a connector sends for a stream.
abbrev pub stream_messages : String → List String → List RelayMessage → List RelayMessage
stream_messages k [] rest = rest
stream_messages k (c ∷ cs) rest = create_stream_chunk_message k c false ∷ stream_messages k cs rest

-- Only the request's own messages matter to its reader.
stream_of-of_request :
    (k : String) (ms : List RelayMessage) → stream_of k (of_request k ms) ≡ stream_of k ms
unfolding stream_of
stream_of-of_request k [] = refl
stream_of-of_request k (m ∷ ms) = ground (arith, stream_of-of_request k ms)

consume-stream_messages :
    (k : String) (cs : List String) (rest : List RelayMessage) (ws : List Written) (end : End)
    → consume (stream_of k rest) ≡ (ws, end)
    → consume (stream_of k (stream_messages k cs rest)) ≡ (map chunk (select truthy cs) ++ ws, end)
unfolding stream_of consume read_message create_stream_chunk_message lookup
consume-stream_messages k [] rest ws end h = h
consume-stream_messages k (c ∷ cs) rest ws end h =
    let ih = consume-stream_messages k cs rest ws end h in
    elim (Bool-cases (truthy c)) [
      | inl e ↦ rw ((eq_iff k k).1 refl) (rw e (rw ih refl))
      | inr e ↦ rw ((eq_iff k k).1 refl) (rw e (rw ih refl))
    ]

consume-stream_end :
    (k : String) (rest : List RelayMessage)
    → consume (stream_of k (create_stream_end_message k ∷ rest)) ≡ ([], complete)
unfolding stream_of consume read_message create_stream_end_message
consume-stream_end k rest = rw ((eq_iff k k).1 refl) refl

consume-error :
    (k : String) (status : ℕ) (e code : String) (rest : List RelayMessage)
    → let last = create_error_message k status e code in
      consume (stream_of k (last ∷ rest)) ≡ (error_event last ∷ [], failed)
unfolding stream_of consume read_message create_error_message
consume-error k status e code rest = rw ((eq_iff k k).1 refl) refl

module _ (s : RelayServer) (i k : String) (q : ℕ) (w : Waits s i k q []) (ms : List RelayMessage)
    (cs : List String) (rest : List RelayMessage) where
  -- Where a connector answers a streaming request with chunks and a STREAM_END, the client gets every
  -- chunk that is not empty, once and in order, and the stream is complete, whatever messages for
  -- other requests come between them and whatever comes after.
  pub consume-complete :
      of_request k ms ≡ stream_messages k cs (create_stream_end_message k ∷ rest)
      → (l : List (Option RelayMessage)) × ((handle_all i ms s).slots q ≡ some (queue l))
        × (consume l ≡ (map chunk (select truthy cs), complete))
  consume-complete h = (
    stream_of k ms,
    handle_all-stream_of ms s i k q [] w,
    rw (← stream_of-of_request k ms, h)
        (consume-stream_messages k cs (create_stream_end_message k ∷ rest) [] complete
            (consume-stream_end k rest)
          ∙ rw append-nil refl),
  )

  -- Where the connector reports an error instead, the client gets the chunks before it, then the
  -- error as an event, and nothing more.
  pub consume-failed :
      (status : ℕ) (e code : String)
      → of_request k ms ≡ stream_messages k cs (create_error_message k status e code ∷ rest)
      → (l : List (Option RelayMessage)) × ((handle_all i ms s).slots q ≡ some (queue l))
        × (consume l ≡ (
          map chunk (select truthy cs) ++ (error_event (create_error_message k status e code) ∷ []),
          failed,
        ))
  consume-failed status e code h = (
    stream_of k ms,
    handle_all-stream_of ms s i k q [] w,
    rw (← stream_of-of_request k ms, h)
        (consume-stream_messages k cs (create_error_message k status e code ∷ rest)
          (error_event (create_error_message k status e code) ∷ []) failed
          (consume-error k status e code rest)),
  )
