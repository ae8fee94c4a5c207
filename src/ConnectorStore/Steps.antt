-- ===== src/ConnectorStore/Steps.antt =====
-- What the store's operations do, one after another: the transitions of the store, and what every
-- store that they reach satisfies.
use Prim.Native.String.{◌++◌ as append}
use remote_llmconnector.Shared.{
  lookup, insert, remove, write, Env, ℕ, ◌+◌, String, Bool, true, Option, none, some, List, ◌≡◌,
  refl, arith, Bool-cases, Option-cases, inl, inr, lookup-insert,
}
use remote_llmconnector.ConnectorStore.Document.{
  ConnectorStatus, Connector, is_pending, is_approved,
}
use remote_llmconnector.ConnectorStore.Store.{
  ConnectorStore, empty, save, get_by_id, modify_at, pending_connector, create_pending, approve,
  drop_key, revoke, delete, update_last_used, update_last_connected, update_models,
}
use remote_llmconnector.ConnectorStore.Valid.{
  IsValid, empty-IsValid, get_by_id-parts, lookup-drop_key, key-lt,
}
use remote_llmconnector.ConnectorStore.Operations

-- One operation on the store. A new connector's identity is one that the store does not hold yet.
pub data Step (s : ConnectorStore) : ConnectorStore → Type 0 where
  created :
      (e : Env) (models : List String) (name : Option String)
      → lookup (append "conn-" e.hex) s.connectors ≡ none
      → Step s (create_pending e models name s).1
  approved : (e : Env) (i : String) → Step s (approve e i s).1
  revoked : (e : Env) (i : String) → Step s (revoke e i s).1
  deleted : (e : Env) (i : String) → Step s (delete e i s).1
  used : (e : Env) (r : ℕ) → Step s (update_last_used e r s)
  connected : (e : Env) (r : ℕ) → Step s (update_last_connected e r s)
  offered : (e : Env) (i : String) (models : List String) → Step s (update_models e i models s).1

pub data Reach (s : ConnectorStore) : ConnectorStore → Type 0 where
  here : Reach s s
  next : {t u : ConnectorStore} → Reach s t → Step t u → Reach s u

pub Step-IsValid : {s t : ConnectorStore} → Step s t → IsValid s → IsValid t
Step-IsValid {s} (created e models name fresh) v =
    Operations.create_pending-IsValid e s v models name fresh
Step-IsValid {s} (approved e i) v = Operations.approve-IsValid e s v i
Step-IsValid {s} (revoked e i) v = Operations.revoke-IsValid e s v i
Step-IsValid {s} (deleted e i) v = Operations.delete-IsValid e s v i
Step-IsValid {s} (used e r) v = Operations.update_last_used-IsValid e s v r
Step-IsValid {s} (connected e r) v = Operations.update_last_connected-IsValid e s v r
Step-IsValid {s} (offered e i models) v = Operations.update_models-IsValid e s v i models

-- The operations, in any order and number, keep the store well formed: an identity refers to the
-- object with that identity, and a key in the index refers to an object with that key, which is
-- known by its identity and has been approved.
pub Reach-IsValid : {s t : ConnectorStore} → Reach s t → IsValid s → IsValid t
Reach-IsValid here v = v
Reach-IsValid (next r st) v = Step-IsValid st (Reach-IsValid r v)

-- Every key in the index belongs to an approved connector.
pub record IsLive (s : ConnectorStore) : Type 0 where
  pub live :
      (k : String) (r : ℕ) (c : Connector)
      → lookup k s.index ≡ some r
      → s.cells r ≡ some c
      → is_approved c.status ≡ true

save-IsLive : (e : Env) (s : ConnectorStore) → IsLive s → IsLive (save e s)
unfolding save
save-IsLive e s h = record { live = λ k r c f g. ground (arith, h.live k r c) }

module _ (s : ConnectorStore) (v : IsValid s) (h : IsLive s) where
  modify_at-IsLive :
      (f : Connector → Connector) (r : ℕ) (o : Option Connector)
      → s.cells r ≡ o
      → ((c : Connector) → (f c).status ≡ c.status)
      → IsLive (record s { cells = modify_at f r o s.cells })
  unfolding write
  modify_at-IsLive f r none e same = h
  modify_at-IsLive f r (some c) e same = record {
    live = λ k q d x y. ground (arith, h.live k q d, h.live k q c, same c);
  }

  module _ (x : Connector) where
    add-IsLive : IsLive (record s {
      connectors = insert x.connector_id s.next s.connectors;
      cells = write s.next x s.cells;
      next = s.next + 1;
    })
    unfolding write
    add-IsLive = record { live = λ k r c f g. ground (arith, h.live k r c, key-lt s v k r f) }

  module _ (i : String) (r : ℕ) (c : Connector) (found : get_by_id s i ≡ some (r, c)) where
    key-IsLive :
        (k : String)
        → is_pending c.status ≡ true
        → IsLive (record s {
          cells =
              write r (record c { api_key = some k; status = ConnectorStatus.approved }) s.cells;
          index = insert k r s.index;
        })
    unfolding write
    key-IsLive k p = record {
      live = λ l q d f g. ground (
        arith,
        h.live l q d,
        v.key_own l r c,
        get_by_id-parts s i r c found,
        lookup-insert k l r s.index,
      );
    }

    drop-IsLive : IsLive (record s {
      cells = write r (record c { status = ConnectorStatus.revoked }) s.cells;
      index = drop_key c.api_key s.index;
    })
    unfolding write
    drop-IsLive = record {
      live = λ l q d f g. ground (
        arith,
        h.live l q d,
        v.key_own l r c,
        get_by_id-parts s i r c found,
        lookup-drop_key c.api_key l s.index q f,
      );
    }

    remove-IsLive :
        IsLive (record s { index = drop_key c.api_key s.index; connectors = remove i s.connectors })
    remove-IsLive = record {
      live = λ l q d f g. ground (arith, h.live l q d, lookup-drop_key c.api_key l s.index q f);
    }

module _ {s : ConnectorStore} (v : IsValid s) (h : IsLive s) where
  pub Step-IsLive : {t : ConnectorStore} → Step s t → IsLive t
  unfolding create_pending approve revoke delete update_last_used update_last_connected
      update_models
  Step-IsLive (created e models name fresh) =
      save-IsLive e _ (add-IsLive s v h (pending_connector e models name))
  Step-IsLive (approved e i) = elim (Option-cases (get_by_id s i)) [
    | inl x ↦ rw (x, approve) h
    | inr ((r, c), x) ↦ elim (Bool-cases (is_pending c.status)) [
      | inl p ↦
          rw (x, approve) (rw p (save-IsLive e _ (key-IsLive s v h i r c x (append "ck-" e.hex) p)))
      | inr p ↦ rw (x, approve) (rw p h)
    ]
  ]
  Step-IsLive (revoked e i) = elim (Option-cases (get_by_id s i)) [
    | inl x ↦ rw (x, revoke) h
    | inr ((r, c), x) ↦ rw (x, revoke) (save-IsLive e _ (drop-IsLive s v h i r c x))
  ]
  Step-IsLive (deleted e i) = elim (Option-cases (get_by_id s i)) [
    | inl x ↦ rw (x, delete) h
    | inr ((r, c), x) ↦ rw (x, delete) (save-IsLive e _ (remove-IsLive s v h i r c x))
  ]
  Step-IsLive (used e r) = save-IsLive e _ (
      modify_at-IsLive s v h (λ c. record c { last_used = some e.now }) r (s.cells r) refl
        (λ c. refl))
  Step-IsLive (connected e r) = save-IsLive e _ (
      modify_at-IsLive s v h (λ c. record c { last_connected = some e.now }) r (s.cells r) refl
        (λ c. refl))
  Step-IsLive (offered e i models) = elim (Option-cases (get_by_id s i)) [
    | inl x ↦ rw (x, update_models) h
    | inr ((r, c), x) ↦
        rw (x, update_models)
          (save-IsLive e _ (
            modify_at-IsLive s v h (λ d. record d { models = models }) r (some c)
              (get_by_id-parts s i r c x).1 (λ c. refl)))
  ]

-- In every store that the operations reach from a new one, the index holds approved connectors only.
pub Reach-IsLive : {b : Bool} {t : ConnectorStore} → Reach (empty b) t → IsLive t
unfolding lookup
Reach-IsLive here = record { live = λ k r c f g. cc }
Reach-IsLive {b} (next r st) = Step-IsLive (Reach-IsValid r (empty-IsValid b)) (Reach-IsLive r) st
