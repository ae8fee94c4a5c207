-- ===== src/RelayServer/Settled.antt =====
-- A request is answered once: what a future of broker/relay_server.py holds once it is settled stays,
-- whatever happens later.
use remote_llmconnector.Shared.{
  lookup, write, Env, ℕ, ◌+◌, ◌<◌, String, Bool, true, Option, none, some, [], ◌≡◌, refl, ◌∙◌,
  arith, Bool-cases, Option-cases, inl, inr, truthy,
}
use remote_llmconnector.Protocol.{RelayMessage}
use remote_llmconnector.RelayServer.State.{
  RelayServer, ConnectorRegistration, Future, waiting, result, disconnected, cancelled, Pending,
  future, queue, registered, start, stop,
}
use remote_llmconnector.RelayServer.Authentication.{FirstFrame, authenticate}
use remote_llmconnector.RelayServer.Connection.{
  open_connection, enter, drop_pending, unregister, cleanup, deliver, answer, handle_message, ping,
  is_pong,
}
use remote_llmconnector.RelayServer.Requests.{
  enter_request, finish_request, send_request, await_response, send_request_streaming, put_back,
  cancel, notify_approval, notify_revoke,
}
use remote_llmconnector.RelayServer.Steps.{
  Step, Reach, started, stopped, opened, messaged, cleaned, pinged, requested, responded, streamed,
  notified, revoked, administered, here, next,
}
use remote_llmconnector.RelayServer.Frame.{authenticate-same}
use remote_llmconnector.RelayServer.Futures.{
  is_done, IsBounded, Keeps, same-Keeps, deliver-done, abandon_all-done, abandon_all-bound,
  enter-slots, finish_request-slots,
}

module _ (s : RelayServer) (b : IsBounded s) where
  open_connection-Keeps :
      (e : Env) (up : Bool) (socket : ℕ) (frame : FirstFrame)
      → Keeps s (open_connection e up socket frame s).1
  unfolding open_connection
  open_connection-Keeps e up socket frame =
      let t = (authenticate e up socket frame s).1 in
      let f = authenticate-same e up socket frame s in
      elim (Option-cases (authenticate e up socket frame s).0) [
        | inl h ↦ rw (h, open_connection) (same-Keeps s t b f.slots f.next_slot)
        | inr (r, h) ↦
            let (x, y) = enter-slots e socket r.status r.connector_id r t in
            rw (h, open_connection)
              (same-Keeps s (enter e socket r.status r.connector_id r t).1 b (x ∙ f.slots)
                (y ∙ f.next_slot))
      ]

  -- One slot is written: a settled future with itself.
  write-Keeps :
      (slot : ℕ) (p : Pending) (t : RelayServer)
      → t.slots ≡ write slot p s.slots
      → t.next_slot ≡ s.next_slot
      → slot < s.next_slot
      → ((f : Future) → is_done f ≡ true → s.slots slot ≡ some (future f) → p ≡ future f)
      → Keeps s t
  unfolding write
  write-Keeps slot p t h k lt own = record {
    settled = λ q f d e. rw h (ground (arith, own f d));
    bound = λ q x e. rw k (let g = rw h at e in ground (arith, b.bound q x));
  }

  fresh-Keeps :
      (p : Pending) (t : RelayServer)
      → t.slots ≡ write s.next_slot p s.slots
      → t.next_slot ≡ s.next_slot + 1
      → Keeps s t
  unfolding write
  fresh-Keeps p t h k = record {
    settled = λ q f d e. rw h (ground (arith, b.bound q (future f) e));
    bound = λ q x e. rw k (let g = rw h at e in ground (arith, b.bound q x));
  }

  answer-Keeps :
      (r : ℕ) (c : ConnectorRegistration) (slot : ℕ) (p : Pending) (m : RelayMessage)
      → s.slots slot ≡ some p
      → Keeps s (answer r c slot p m s)
  unfolding answer
  answer-Keeps r c slot p m h =
      write-Keeps slot (deliver m p) (answer r c slot p m s) refl refl (b.bound slot p h)
        (λ f d e. ground (arith, deliver-done m f d))

  handle_message-Keeps : (i : String) (m : RelayMessage) → Keeps s (handle_message i m s)
  unfolding handle_message
  handle_message-Keeps i m =
      let idle = same-Keeps s s b refl refl in
      elim (Option-cases (registered s i)) [
        | inl x ↦ rw (x, handle_message) idle
        | inr ((q, c), x) ↦ elim (Bool-cases (is_pong m.type)) [
          | inl y ↦ rw (x, handle_message) (rw y idle)
          | inr y ↦ elim (Option-cases (lookup m.id c.pending_requests)) [
            | inl z ↦ rw (x, handle_message) (rw y (rw z idle))
            | inr (slot, z) ↦ elim (Option-cases (s.slots slot)) [
              | inl w ↦ rw (x, handle_message) (rw y (rw z (rw w idle)))
              | inr (p, w) ↦
                  rw (x, handle_message) (rw y (rw z (rw w (answer-Keeps q c slot p m w))))
            ]
          ]
        ]
      ]

  unregister-Keeps :
      (i : String) (t : RelayServer)
      → t.slots ≡ s.slots
      → t.next_slot ≡ s.next_slot
      → Keeps s (unregister i t)
  unfolding unregister
  unregister-Keeps i t h k = elim (Option-cases (registered t i)) [
    | inl x ↦ rw (x, unregister) (same-Keeps s t b h k)
    | inr ((q, c), x) ↦ elim (Bool-cases (truthy i)) [
      | inl y ↦
          rw (x, unregister)
            (rw y (record {
              settled = λ p f d e. abandon_all-done c.pending_requests t.slots p f d (rw h e);
              bound = λ p y e. elim (Option-cases (s.slots p)) [
                | inl n ↦ absurd (abandon_all-bound c.pending_requests t.slots p y e (rw h n))
                | inr (z, o) ↦ rw k (b.bound p z o)
              ];
            }))
      | inr y ↦ rw (x, unregister) (rw y (same-Keeps s t b h k))
    ]
  ]

  cleanup-Keeps : (i : String) → Keeps s (cleanup i s)
  unfolding cleanup drop_pending
  cleanup-Keeps i = unregister-Keeps i (drop_pending i s) (ground arith) (ground arith)

  send_request-Keeps :
      (up : Bool) (i : String) (m : RelayMessage) → Keeps s (send_request up i m s).1
  unfolding send_request enter_request
  send_request-Keeps up i m = elim (Option-cases (registered s i)) [
    | inl x ↦ rw (x, send_request) (same-Keeps s s b refl refl)
    | inr ((q, c), x) ↦ elim (Bool-cases up) [
      | inl y ↦ rw (x, send_request) (rw y (fresh-Keeps (future waiting) _ refl refl))
      | inr y ↦
          let t = enter_request q c m.id (future waiting) s in
          let (f, g) = finish_request-slots q m.id t in
          rw (x, send_request) (rw y (fresh-Keeps (future waiting) (finish_request q m.id t) f g))
    ]
  ]

  streaming-Keeps :
      (up : Bool) (i : String) (m : RelayMessage) → Keeps s (send_request_streaming up i m s).1
  unfolding send_request_streaming enter_request
  streaming-Keeps up i m = elim (Option-cases (registered s i)) [
    | inl x ↦ rw (x, send_request_streaming) (same-Keeps s s b refl refl)
    | inr ((q, c), x) ↦ elim (Bool-cases up) [
      | inl y ↦ rw (x, send_request_streaming) (rw y (fresh-Keeps (queue []) _ refl refl))
      | inr y ↦ rw (x, send_request_streaming) (rw y (fresh-Keeps (queue []) _ refl refl))
    ]
  ]

  put_back-Keeps :
      (slot : ℕ) (o : Option Pending) → s.slots slot ≡ o → Keeps s (put_back slot (cancel o) s)
  put_back-Keeps slot none h = same-Keeps s s b refl refl
  put_back-Keeps slot (some (future waiting)) h =
      let p : Pending = future cancelled in
      write-Keeps slot p (put_back slot (some p) s) refl refl (b.bound slot (future waiting) h)
        (λ f d e. ground arith)
  put_back-Keeps slot (some (future (result m))) h =
      let p : Pending = future (result m) in
      write-Keeps slot p (put_back slot (some p) s) refl refl (b.bound slot (future (result m)) h)
        (λ f d e. ground arith)
  put_back-Keeps slot (some (future disconnected)) h =
      let p : Pending = future disconnected in
      write-Keeps slot p (put_back slot (some p) s) refl refl (b.bound slot (future disconnected) h)
        (λ f d e. ground arith)
  put_back-Keeps slot (some (future cancelled)) h =
      let p : Pending = future cancelled in
      write-Keeps slot p (put_back slot (some p) s) refl refl (b.bound slot (future cancelled) h)
        (λ f d e. ground arith)
  put_back-Keeps slot (some (queue l)) h =
      let p : Pending = queue l in
      write-Keeps slot p (put_back slot (some p) s) refl refl (b.bound slot (queue l) h)
        (λ f d e. ground arith)

  await_response-Keeps : (r slot : ℕ) (k : String) → Keeps s (await_response r slot k s).1
  unfolding await_response
  await_response-Keeps r slot k =
      let t = put_back slot (cancel (s.slots slot)) s in
      let g = put_back-Keeps slot (s.slots slot) refl in
      let (x, y) = finish_request-slots r k t in
      record {
        settled = λ q f d e. rw x (g.settled q f d e);
        bound = λ q p e. rw y (g.bound q p (rw x at e));
      }

pub Step-Keeps : {s t : RelayServer} → Step s t → IsBounded s → Keeps s t
unfolding start stop ping notify_approval notify_revoke
Step-Keeps {s} started b = same-Keeps s (start s) b refl refl
Step-Keeps {s} stopped b = same-Keeps s (stop s) b refl refl
Step-Keeps {s} (opened e up socket frame) b = open_connection-Keeps s b e up socket frame
Step-Keeps {s} (messaged i m) b = handle_message-Keeps s b i m
Step-Keeps {s} (cleaned i) b = cleanup-Keeps s b i
Step-Keeps {s} (pinged e up i) b = same-Keeps s (ping e up i s).1 b (ground arith) (ground arith)
Step-Keeps {s} (requested up i m) b = send_request-Keeps s b up i m
Step-Keeps {s} (responded r slot k) b = await_response-Keeps s b r slot k
Step-Keeps {s} (streamed up i m) b = streaming-Keeps s b up i m
Step-Keeps {s} (notified up i key) b =
    same-Keeps s (notify_approval up i key s).1 b (ground arith) (ground arith)
Step-Keeps {s} (revoked e up i reason) b =
    same-Keeps s (notify_revoke e up i reason s).1 b (ground arith) (ground arith)
Step-Keeps {s} (administered store) b =
    same-Keeps s (record s { connector_store = store }) b refl refl

pub Reach-IsBounded : {s t : RelayServer} → Reach s t → IsBounded s → IsBounded t
Reach-IsBounded here b = b
Reach-IsBounded (next r st) b = record { bound = (Step-Keeps st (Reach-IsBounded r b)).bound }

-- A future that is settled, by a response, by the connector's disconnection or by the timeout, holds
-- the same in every later state of the server: a request has one outcome.
pub settled-Reach :
    {s t : RelayServer} (q : ℕ) (f : Future)
    → IsBounded s
    → Reach s t
    → is_done f ≡ true
    → s.slots q ≡ some (future f)
    → t.slots q ≡ some (future f)
settled-Reach q f b here d h = h
settled-Reach q f b (next r st) d h =
    (Step-Keeps st (Reach-IsBounded r b)).settled q f d (settled-Reach q f b r d h)
