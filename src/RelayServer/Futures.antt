-- ===== src/RelayServer/Futures.antt =====
-- The futures of broker/relay_server.py: what it is for one to be settled, and the parts of the
-- operations that touch them.
use remote_llmconnector.Shared.{
  Dict, Heap, write, Env, ℕ, ◌<◌, String, Bool, true, false, Option, none, some, [], ◌∷◌, ◌≡◌, ◌≢◌,
  refl, arith, Option-cases, inl, inr,
}
use remote_llmconnector.Protocol.{RelayMessage}
use remote_llmconnector.RelayServer.State.{RelayServer, Future, waiting, Pending, future}
use remote_llmconnector.RelayServer.Authentication.{AuthResult, AuthStatus}
use remote_llmconnector.RelayServer.Connection.{abandon, abandon_all, enter, deliver}
use remote_llmconnector.RelayServer.Requests.{finish_request}

-- A settled future.
abbrev pub is_done : Future → Bool
is_done waiting = false
is_done _ = true

-- Slots are handed out in order.
pub record IsBounded (s : RelayServer) : Type 0 where
  pub bound : (q : ℕ) (p : Pending) → s.slots q ≡ some p → q < s.next_slot

-- From one state to a later one: settled futures stay.
pub record Keeps (s t : RelayServer) : Type 0 where
  pub settled :
      (q : ℕ) (f : Future)
      → is_done f ≡ true
      → s.slots q ≡ some (future f)
      → t.slots q ≡ some (future f)
  pub bound : (q : ℕ) (p : Pending) → t.slots q ≡ some p → q < t.next_slot

pub same-Keeps :
    (s t : RelayServer) → IsBounded s → t.slots ≡ s.slots → t.next_slot ≡ s.next_slot → Keeps s t
same-Keeps s t b h k = record {
  settled = λ q f d e. rw h e;
  bound = λ q p e. rw k (b.bound q p (rw h at e));
}

pub deliver-done :
    (m : RelayMessage) (f : Future) → is_done f ≡ true → deliver m (future f) ≡ future f
unfolding deliver
deliver-done m f d = ground arith

pub abandon-done : (f : Future) → is_done f ≡ true → abandon (future f) ≡ future f
unfolding abandon
abandon-done f d = ground arith

pub abandon_all-done :
    (d : Dict ℕ) (slots : Heap Pending) (q : ℕ) (f : Future)
    → is_done f ≡ true
    → slots q ≡ some (future f)
    → abandon_all d slots q ≡ some (future f)
unfolding abandon_all write
abandon_all-done [] slots q f e h = h
abandon_all-done ((k, r) ∷ d) slots q f e h = elim (Option-cases (slots r)) [
  | inl x ↦ rw (x, abandon_all) (abandon_all-done d slots q f e h)
  | inr (p, x) ↦
      rw (x, abandon_all)
        (abandon_all-done d (write r (abandon p) slots) q f e (ground (arith, abandon-done f e)))
]

pub abandon_all-bound :
    (d : Dict ℕ) (slots : Heap Pending) (q : ℕ) (p : Pending)
    → abandon_all d slots q ≡ some p
    → slots q ≢ none
unfolding abandon_all write
abandon_all-bound [] slots q p h = ground arith
abandon_all-bound ((k, r) ∷ d) slots q p h = elim (Option-cases (slots r)) [
  | inl x ↦ abandon_all-bound d slots q p (rw (x, abandon_all) at h)
  | inr (y, x) ↦
      let b = abandon_all-bound d (write r (abandon y) slots) q p (rw (x, abandon_all) at h) in
      λ e. b (ground arith)
]

pub enter-slots :
    (e : Env) (socket : ℕ) (st : AuthStatus) (i : Option String) (r : AuthResult) (s : RelayServer)
    → ((enter e socket st i r s).1.slots ≡ s.slots)
      × ((enter e socket st i r s).1.next_slot ≡ s.next_slot)
unfolding enter
enter-slots e socket AuthStatus.failed i r s = (refl, refl)
enter-slots e socket AuthStatus.pending none r s = (refl, refl)
enter-slots e socket AuthStatus.pending (some i) r s = (refl, refl)
enter-slots e socket AuthStatus.approved none r s = (refl, refl)
enter-slots e socket AuthStatus.approved (some i) r s = (refl, refl)

pub finish_request-slots :
    (q : ℕ) (k : String) (s : RelayServer)
    → ((finish_request q k s).slots ≡ s.slots) × ((finish_request q k s).next_slot ≡ s.next_slot)
unfolding finish_request
finish_request-slots q k s = ground arith
