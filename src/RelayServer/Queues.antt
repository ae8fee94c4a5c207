-- ===== src/RelayServer/Queues.antt =====
-- The queues of streaming requests in broker/relay_server.py: a request that waits on one, a request
-- that is over, and the messages that find neither.
use remote_llmconnector.Shared.{
  Dict, lookup, remove, write, ℕ, String, false, Option, none, some, List, [], ◌∷◌, ◌≡◌, ◌≢◌, arith,
  ◌==◌, Bool-cases, Option-cases, inl, inr, if◌then◌else◌, lookup-remove, not, ◌&&◌, ◌⊎◌,
}
use remote_llmconnector.Protocol.{RelayMessage}
use remote_llmconnector.RelayServer.State.{
  RelayServer, ConnectorRegistration, Pending, queue, registered,
}
use remote_llmconnector.RelayServer.Connection.{
  retires, answer, handle_message, is_pong, ends_stream,
}

-- The connector's messages, handled one after another.
unfoldable pub handle_all : String → List RelayMessage → RelayServer → RelayServer
unfolding handle_message
handle_all i [] s = s
handle_all i (m ∷ ms) s = handle_all i ms (handle_message i m s)

-- What a stream's reader should get of them.
unfoldable pub stream_of : String → List RelayMessage → List (Option RelayMessage)
stream_of k [] = []
stream_of k (m ∷ ms) =
    if (m.id == k) && not (is_pong m.type)
    then (if ends_stream m.type then some m ∷ none ∷ [] else some m ∷ stream_of k ms)
    else stream_of k ms

-- No two requests of a registration share a slot.
pub record Separate (d : Dict ℕ) : Type 0 where
  pub separate : (j k : String) (q : ℕ) → lookup j d ≡ some q → lookup k d ≡ some q → j ≡ k

-- The request waits on the queue.
pub record Waits (s : RelayServer) (i k : String) (q : ℕ) (l : List (Option RelayMessage))
    : Type 0 where
  pub r : ℕ
  pub c : ConnectorRegistration
  pub is_registered : registered s i ≡ some (r, c)
  pub entry : lookup k c.pending_requests ≡ some q
  pub slot : s.slots q ≡ some (queue l)
  pub separate : Separate c.pending_requests

-- The request's entry is gone, and its queue is held by no other.
pub record Over (s : RelayServer) (i : String) (q : ℕ) (l : List (Option RelayMessage))
    : Type 0 where
  pub slot : s.slots q ≡ some (queue l)
  pub gone :
      (r : ℕ) (c : ConnectorRegistration) (j : String)
      → registered s i ≡ some (r, c)
      → lookup j c.pending_requests ≢ some q

-- A message that finds its request.
pub record Answered (s : RelayServer) (i : String) (m : RelayMessage) : Type 0 where
  pub r : ℕ
  pub c : ConnectorRegistration
  pub at : ℕ
  pub p : Pending
  pub is_registered : registered s i ≡ some (r, c)
  pub no_pong : is_pong m.type ≡ false
  pub entry : lookup m.id c.pending_requests ≡ some at
  pub slot : s.slots at ≡ some p

pub handle_message_answered :
    (s : RelayServer) (i : String) (m : RelayMessage) (a : Answered s i m)
    → handle_message i m s ≡ answer a.r a.c a.at a.p m s
unfolding handle_message
handle_message_answered s i m a =
    rw (a.is_registered, handle_message) (rw a.no_pong (rw a.entry (rw a.slot)))

pub handle_message_cases :
    (s : RelayServer) (i : String) (m : RelayMessage) → (handle_message i m s ≡ s) ⊎ Answered s i m
unfolding handle_message
handle_message_cases s i m = elim (Option-cases (registered s i)) [
  | inl x ↦ inl (rw (x, handle_message))
  | inr ((r, c), x) ↦ elim (Bool-cases (is_pong m.type)) [
    | inl y ↦ inl (rw (x, handle_message) (rw y))
    | inr y ↦ elim (Option-cases (lookup m.id c.pending_requests)) [
      | inl z ↦ inl (rw (x, handle_message) (rw y (rw z)))
      | inr (at, z) ↦ elim (Option-cases (s.slots at)) [
        | inl w ↦ inl (rw (x, handle_message) (rw y (rw z (rw w))))
        | inr (p, w) ↦ inr (record {
          r = r;
          c = c;
          at = at;
          p = p;
          is_registered = x;
          no_pong = y;
          entry = z;
          slot = w;
        })
      ]
    ]
  ]
]

-- What an answered message leaves of the registration: fewer entries at most.
pub registered-answer :
    (s : RelayServer) (i : String) (m : RelayMessage) (a : Answered s i m)
    → registered (answer a.r a.c a.at a.p m s) i
      ≡ some (
        a.r,
        (if retires m a.p
            then record a.c { pending_requests = remove m.id a.c.pending_requests }
            else a.c),
      )
unfolding answer registered write
registered-answer s i m a = let h = a.is_registered in ground arith

pub handle_message-Over :
    (s : RelayServer) (i : String) (q : ℕ) (l : List (Option RelayMessage)) (m : RelayMessage)
    → Over s i q l
    → Over (handle_message i m s) i q l
handle_message-Over s i q l m o = elim (handle_message_cases s i m) [
  | inl e ↦ rw e o
  | inr a ↦
      let away = o.gone a.r a.c m.id a.is_registered in
      rw (handle_message_answered s i m a) (record {
        slot = unfold answer write in let e = a.entry in let g = o.slot in ground arith;
        gone = λ r c j h e.
            o.gone a.r a.c j a.is_registered (
              ground (arith, registered-answer s i m a, lookup-remove m.id j a.c.pending_requests));
      })
]

pub handle_all-Over :
    (ms : List RelayMessage) (s : RelayServer) (i : String) (q : ℕ) (l : List (Option RelayMessage))
    → Over s i q l
    → (handle_all i ms s).slots q ≡ some (queue l)
unfolding handle_all
handle_all-Over [] s i q l o = o.slot
handle_all-Over (m ∷ ms) s i q l o =
    handle_all-Over ms (handle_message i m s) i q l (handle_message-Over s i q l m o)

pub remove-Separate : (k : String) (d : Dict ℕ) → Separate d → Separate (remove k d)
remove-Separate k d h = record {
  separate =
      λ i j q f g. ground (arith, h.separate i j q, lookup-remove k i d, lookup-remove k j d);
}
