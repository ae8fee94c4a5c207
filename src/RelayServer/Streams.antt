-- ===== src/RelayServer/Streams.antt =====
-- A streaming request's queue in broker/relay_server.py receives the connector's messages for that
-- request, in order, up to the first that ends the stream, and then the end mark; nothing after it.
use remote_llmconnector.Shared.{
  lookup, remove, write, ℕ, String, true, false, Option, none, some, List, [], ◌∷◌, ◌++◌, ◌≡◌, ◌≢◌,
  sym, ◌∙◌, arith, eq_iff, ◌==◌, Bool-cases, inl, inr, if◌then◌else◌, lookup-remove, not, ◌&&◌,
}
use mathlib.Core.List.{append_assoc, append-nil}
use remote_llmconnector.Protocol.{RelayMessage}
use remote_llmconnector.RelayServer.State.{RelayServer, queue}
use remote_llmconnector.RelayServer.Connection.{
  retires, deliver, answer, handle_message, is_pong, ends_stream,
}
use remote_llmconnector.RelayServer.Queues.{
  handle_all, stream_of, Separate, Waits, Over, Answered, handle_message_answered,
  handle_message_cases, registered-answer, handle_all-Over, remove-Separate,
}

module _ (s : RelayServer) (i k : String) (q : ℕ) (l : List (Option RelayMessage))
    (w : Waits s i k q l) (m : RelayMessage) where
  -- A message of the stream finds the queue.
  abbrev stream_message : (m.id == k) ≡ true → is_pong m.type ≡ false → Answered s i m
  stream_message h n = record {
    r = w.r;
    c = w.c;
    at = q;
    p = queue l;
    is_registered = w.is_registered;
    no_pong = n;
    entry = rw ((eq_iff m.id k).0 h) (w.entry);
    slot = w.slot;
  }

  handle_message-next :
      (m.id == k) ≡ true
      → is_pong m.type ≡ false
      → ends_stream m.type ≡ false
      → Waits (handle_message i m s) i k q (l ++ (some m ∷ []))
  handle_message-next h n e =
      let a = stream_message h n in
      rw (handle_message_answered s i m a) (record {
        r = w.r;
        c = w.c;
        is_registered = registered-answer s i m a ∙ (rw e);
        entry = w.entry;
        slot = unfold answer deliver write in ground arith;
        separate = w.separate;
      })

  handle_message-last :
      (m.id == k) ≡ true
      → is_pong m.type ≡ false
      → ends_stream m.type ≡ true
      → Over (handle_message i m s) i q (l ++ (some m ∷ none ∷ []))
  handle_message-last h n e =
      let a = stream_message h n in
      rw (handle_message_answered s i m a) (record {
        slot =
            unfold answer deliver write in ground (arith, append_assoc l (some m ∷ []) (none ∷ []));
        gone = λ r c j g f. ground (
          arith,
          registered-answer s i m a,
          lookup-remove m.id j w.c.pending_requests,
          w.separate.separate j k q,
          eq_iff m.id k,
          eq_iff m.id j,
          w.entry,
        );
      })

  -- The entries that an answer to another request leaves.
  aside_entries :
      (a : Answered s i m)
      → m.id ≢ k
      → (lookup k
            (if retires m a.p
              then record a.c { pending_requests = remove m.id a.c.pending_requests }
              else a.c).pending_requests
          ≡ some q)
        × Separate
            (if retires m a.p
              then record a.c { pending_requests = remove m.id a.c.pending_requests }
              else a.c).pending_requests
  aside_entries a other =
      let same : some (a.r, a.c) ≡ some (w.r, w.c) = sym a.is_registered ∙ w.is_registered in
      let e : a.c ≡ w.c = ground arith in
      let entry : lookup k a.c.pending_requests ≡ some q = rw e w.entry in
      let apart : Separate a.c.pending_requests = rw e w.separate in
      elim (Bool-cases (retires m a.p)) [
        | inl y ↦ rw y (
          ground (arith, lookup-remove m.id k a.c.pending_requests, eq_iff m.id k),
          remove-Separate m.id a.c.pending_requests apart,
        )
        | inr y ↦ rw y (entry, apart)
      ]

  aside_slot :
      (a : Answered s i m) → m.id ≢ k → (answer a.r a.c a.at a.p m s).slots q ≡ some (queue l)
  unfolding answer write
  aside_slot a other =
      let same : some (a.r, a.c) ≡ some (w.r, w.c) = sym a.is_registered ∙ w.is_registered in
      let e : a.c ≡ w.c = ground arith in
      let entry : lookup m.id w.c.pending_requests ≡ some a.at = rw (← e) a.entry in
      let held = w.slot in ground (arith, w.separate.separate m.id k q, w.entry)

  handle_message-aside :
      ((m.id == k) && not (is_pong m.type)) ≡ false → Waits (handle_message i m s) i k q l
  handle_message-aside h = elim (handle_message_cases s i m) [
    | inl e ↦ rw e w
    | inr a ↦
        let other : m.id ≢ k = let n = a.no_pong in ground (arith, eq_iff m.id k) in
        let (entry, apart) = aside_entries a other in
        rw (handle_message_answered s i m a) (record {
          r = a.r;
          c =
              if retires m a.p
              then record a.c { pending_requests = remove m.id a.c.pending_requests }
              else a.c;
          is_registered = registered-answer s i m a;
          entry = entry;
          slot = aside_slot a other;
          separate = apart;
        })
  ]

-- The queue of a streaming request holds what it held, followed by the messages of that request in
-- the order in which the connector sent them, up to the first STREAM_END or ERROR, and the end mark
-- after it; messages for other requests and whatever comes after the end leave it alone.
pub handle_all-stream_of :
    (ms : List RelayMessage) (s : RelayServer) (i k : String) (q : ℕ)
    (l : List (Option RelayMessage))
    → Waits s i k q l
    → (handle_all i ms s).slots q ≡ some (queue (l ++ stream_of k ms))
unfolding handle_all stream_of
handle_all-stream_of [] s i k q l w = rw append-nil (w.slot)
handle_all-stream_of (m ∷ ms) s i k q l w =
    elim (Bool-cases ((m.id == k) && not (is_pong m.type))) [
      | inl h ↦
          let here : (m.id == k) ≡ true = ground arith in
          let no_pong : is_pong m.type ≡ false = ground arith in
          elim (Bool-cases (ends_stream m.type)) [
            | inl e ↦
                rw (h, e)
                  (handle_all-Over ms (handle_message i m s) i q (l ++ (some m ∷ none ∷ []))
                    (handle_message-last s i k q l w m here no_pong e))
            | inr e ↦
                rw (h, e)
                  (rw append_assoc at (
                    handle_all-stream_of ms (handle_message i m s) i k q (l ++ (some m ∷ []))
                      (handle_message-next s i k q l w m here no_pong e)))
          ]
      | inr h ↦ rw h (
          handle_all-stream_of ms (handle_message i m s) i k q l
            (handle_message-aside s i k q l w m h))
    ]
