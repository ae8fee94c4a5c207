-- ===== src/RelayServer/Cleanup.antt =====
-- What the end of a connection leaves behind: nothing that waits, no registration, no route.
use remote_llmconnector.Shared.{
  refl, Dict, lookup, Heap, write, Env, ℕ, String, Bool, true, false, Option, none, some, [], ◌∷◌,
  ◌≡◌, ◌≢◌, ap, ◌∙◌, arith, eq_iff, ◌==◌, truthy, ◌++◌, List, sym, subst, insert, lookup-insert,
  Bool-cases, Option-cases, inl, inr, lookup-remove,
}
use remote_llmconnector.Protocol.{RelayMessage}
use remote_llmconnector.RelayServer.State.{
  RelayServer, ConnectorRegistration, waiting, result, disconnected, cancelled, Pending, future,
  queue, registered,
}
use remote_llmconnector.RelayServer.Authentication.{AuthResult}
use remote_llmconnector.RelayServer.Connection.{
  register, handle_message, abandon, abandon_all, drop_pending, unregister, cleanup,
}
use remote_llmconnector.RelayServer.Requests.{send_request}
use remote_llmconnector.RelayServer.Sending.{registered-send_request, slots-send_request}
use remote_llmconnector.RelayServer.Agreement.{Agrees, registered-register}

-- Whether a reader of the queue comes to its end.
unfoldable has_end : List (Option RelayMessage) → Bool
has_end [] = false
has_end (none ∷ l) = true
has_end (some m ∷ l) = has_end l

-- Whether nobody waits in vain: a future is done, and a queue brings its reader to its end.
unfoldable pub is_settled : Option Pending → Bool
unfolding has_end
is_settled none = false
is_settled (some (future waiting)) = false
is_settled (some (future f)) = true
is_settled (some (queue l)) = has_end l

has_end-append : (l : List (Option RelayMessage)) → has_end (l ++ (none ∷ [])) ≡ true
unfolding has_end
has_end-append [] = refl
has_end-append (none ∷ l) = refl
has_end-append (some m ∷ l) = has_end-append l

is_settled-abandon : (p : Pending) → is_settled (some (abandon p)) ≡ true
unfolding abandon is_settled
is_settled-abandon (future waiting) = refl
is_settled-abandon (future (result m)) = refl
is_settled-abandon (future disconnected) = refl
is_settled-abandon (future cancelled) = refl
is_settled-abandon (queue l) = has_end-append l

-- A slot that is settled stays so.
abandon_all_keeps :
    (d : Dict ℕ) (slots : Heap Pending) (q : ℕ)
    → is_settled (slots q) ≡ true
    → is_settled (abandon_all d slots q) ≡ true
unfolding abandon_all write
abandon_all_keeps [] slots q h = h
abandon_all_keeps ((k, r) ∷ d) slots q h = elim (Option-cases (slots r)) [
  | inl e ↦ rw (e, abandon_all) (abandon_all_keeps d slots q h)
  | inr (p, e) ↦
      rw (e, abandon_all)
        (abandon_all_keeps d (write r (abandon p) slots) q (ground (arith, is_settled-abandon p)))
]

-- Every slot of the registration's requests is settled.
is_settled-abandon_all :
    (d : Dict ℕ) (slots : Heap Pending) (k : String) (q : ℕ)
    → lookup k d ≡ some q
    → slots q ≢ none
    → is_settled (abandon_all d slots q) ≡ true
unfolding abandon_all lookup write
is_settled-abandon_all [] slots k q h x = cc
is_settled-abandon_all ((j, r) ∷ d) slots k q h x = elim (Bool-cases (j == k)) [
  | inl same ↦ elim (Option-cases (slots r)) [
    | inl e ↦ absurd (x (ground arith))
    | inr (p, e) ↦
        rw (e, abandon_all)
          (abandon_all_keeps d (write r (abandon p) slots) q (ground (arith, is_settled-abandon p)))
  ]
  | inr other ↦ elim (Option-cases (slots r)) [
    | inl e ↦ rw (e, abandon_all) (is_settled-abandon_all d slots k q (ground arith) x)
    | inr (p, e) ↦
        rw (e, abandon_all)
          (is_settled-abandon_all d (write r (abandon p) slots) k q (ground arith) (ground arith))
  ]
]

module _ (s : RelayServer) (i : String) (t : truthy i ≡ true) where
  registered-drop_pending : registered (drop_pending i s) i ≡ registered s i
  unfolding registered drop_pending
  registered-drop_pending = ground arith

  slots-drop_pending : (drop_pending i s).slots ≡ s.slots
  unfolding drop_pending
  slots-drop_pending = ground arith

  pending-drop_pending : lookup i (drop_pending i s).pending_connections ≡ none
  unfolding drop_pending
  pending-drop_pending = ground (arith, lookup-remove i i s.pending_connections, eq_iff i i)

  pending-unregister : (unregister i s).pending_connections ≡ s.pending_connections
  unfolding unregister
  pending-unregister = ground arith

  registered-unregister : registered (unregister i s) i ≡ none
  unfolding unregister registered
  registered-unregister = ground (arith, lookup-remove i i s.connectors, eq_iff i i)

  slots-unregister :
      (r : ℕ) (c : ConnectorRegistration)
      → registered s i ≡ some (r, c)
      → (unregister i s).slots ≡ abandon_all c.pending_requests s.slots
  unfolding unregister
  slots-unregister r c h = rw (h, unregister) (rw t)

-- The end of a connection, with the identity that its handler holds: the identity is neither
-- registered nor pending afterwards.
pub registered-cleanup :
    (s : RelayServer) (i : String)
    → truthy i ≡ true
    → (registered (cleanup i s) i ≡ none) × (lookup i (cleanup i s).pending_connections ≡ none)
unfolding cleanup
registered-cleanup s i t = (
  registered-unregister (drop_pending i s) i t,
  ap (lookup i) (pending-unregister (drop_pending i s) i t) ∙ pending-drop_pending s i t,
)

-- When a registered connector's connection ends, every request that was sent to it is settled,
-- whatever it was: a future has an answer or an error, or was cancelled by its timeout, and a stream's
-- queue holds the end that its reader stops at.
pub is_settled-cleanup :
    (s : RelayServer) (i k : String) (r q : ℕ) (c : ConnectorRegistration)
    → truthy i ≡ true
    → registered s i ≡ some (r, c)
    → lookup k c.pending_requests ≡ some q
    → s.slots q ≢ none
    → is_settled ((cleanup i s).slots q) ≡ true
unfolding cleanup
is_settled-cleanup s i k r q c t h e x =
    rw (slots-unregister (drop_pending i s) i t r c (registered-drop_pending s i t ∙ h)) (
      is_settled-abandon_all c.pending_requests (drop_pending i s).slots k q e
        (subst (λ f. f q ≢ none) (sym (slots-drop_pending s i t)) x))

-- Whether a future that is abandoned now fails or has failed.
abbrev may_fail : Option Pending → Bool
may_fail (some (future waiting)) = true
may_fail (some (future disconnected)) = true
may_fail _ = false

may_fail-abandon_all :
    (d : Dict ℕ) (slots : Heap Pending) (q : ℕ)
    → may_fail (slots q) ≡ true
    → may_fail (abandon_all d slots q) ≡ true
unfolding abandon_all abandon write
may_fail-abandon_all [] slots q h = h
may_fail-abandon_all ((k, r) ∷ d) slots q h = elim (Option-cases (slots r)) [
  | inl e ↦ rw (e, abandon_all) (may_fail-abandon_all d slots q h)
  | inr (p, e) ↦
      rw (e, abandon_all)
        (may_fail-abandon_all d (write r (abandon p) slots) q (ground (arith, ap may_fail e)))
]

may_fail-settled :
    (x : Option Pending) → may_fail x ≡ true → is_settled x ≡ true → x ≡ some (future disconnected)
unfolding is_settled
may_fail-settled x h g = ground arith

-- A request that waits for its answer when its connection ends has failed.
disconnected-cleanup :
    (s : RelayServer) (i k : String) (r q : ℕ) (c : ConnectorRegistration)
    → truthy i ≡ true
    → registered s i ≡ some (r, c)
    → lookup k c.pending_requests ≡ some q
    → s.slots q ≡ some (future waiting)
    → (cleanup i s).slots q ≡ some (future disconnected)
unfolding cleanup
disconnected-cleanup s i k r q c t h e x =
    may_fail-settled _
      (rw (slots-unregister (drop_pending i s) i t r c (registered-drop_pending s i t ∙ h)) (
        may_fail-abandon_all c.pending_requests (drop_pending i s).slots q
          (ap (λ f. may_fail (f q)) (slots-drop_pending s i t) ∙ ap may_fail x)))
      (is_settled-cleanup s i k r q c t h e (λ y. cc (sym x ∙ y)))

registered_anew :
    (s : RelayServer) (e : Env) (socket : ℕ) (i : String) (r : AuthResult)
    → Agrees s
    → (n : ℕ) × (c : ConnectorRegistration) × (registered (register e socket i r s) i ≡ some (n, c))
registered_anew s e socket i r a = elim (Option-cases (registered (register e socket i r s) i)) [
  | inl x ↦ ground (arith, registered-register s a e socket i i r, eq_iff i i)
  | inr ((n, c), x) ↦ (n, c, x)
]

handle_message_unregistered :
    (s : RelayServer) (i : String) (m : RelayMessage)
    → registered s i ≡ none
    → handle_message i m s ≡ s
unfolding handle_message
handle_message_unregistered s i m h = rw (h, handle_message)

-- The clean-up goes by the identity alone: where a connector connects again before the end of its
-- first connection is noticed, and a request is on its way to the second connection, that end takes
-- the second connection's registration away and fails the request with a ConnectionError; an answer
-- that the second connection, still open, then sends changes nothing.
pub handle_message-cleanup_newer :
    (s : RelayServer) (e : Env) (socket : ℕ) (i : String) (r : AuthResult)
    (request reply : RelayMessage)
    → Agrees s
    → truthy i ≡ true
    → let t = (send_request true i request (register e socket i r s)).1 in
      (registered t i ≢ none)
      × (registered (cleanup i t) i ≡ none)
      × ((cleanup i t).slots (register e socket i r s).next_slot ≡ some (future disconnected))
      × (handle_message i reply (cleanup i t) ≡ cleanup i t)
handle_message-cleanup_newer s e socket i r m reply a t =
    let u = register e socket i r s in
    let (n, c, h) = registered_anew s e socket i r a in
    let v = (send_request true i m u).1 in
    let known = registered-send_request u i m n c h in
    let waits = slots-send_request u i m n c h in
    let gone = (registered-cleanup v i t).0 in
    let present = lookup-insert m.id m.id u.next_slot c.pending_requests in
    (
      λ x. cc (sym known ∙ x),
      gone,
      disconnected-cleanup v i m.id n u.next_slot
          (record c { pending_requests = insert m.id u.next_slot c.pending_requests }) t known
          (ground (arith, present, eq_iff m.id m.id)) waits,
      handle_message_unregistered (cleanup i v) i reply gone,
    )
