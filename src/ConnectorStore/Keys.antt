-- ===== src/ConnectorStore/Keys.antt =====
-- What a connector's key opens, before and after the decisions of an admin.
use Prim.Native.String.{◌++◌ as append}
use remote_llmconnector.Shared.{
  lookup, insert, remove, write, Env, ℕ, String, Bool, true, false, none, some, ◌≡◌, ◌≢◌, refl, ap,
  sym, ◌∙◌, arith, eq_iff, Option-cases, inl, inr, lookup-insert,
}
use remote_llmconnector.ConnectorStore.Document.{
  ConnectorStatus, Connector, is_pending, is_approved, is_revoked,
}
use remote_llmconnector.ConnectorStore.Store.{
  ConnectorStore, empty, save, get_by_id, get_by_api_key, validate_api_key, approve, drop_key,
  revoke, delete,
}
use remote_llmconnector.ConnectorStore.Valid.{IsValid, get_by_id-parts, lookup-drop_key}
use remote_llmconnector.ConnectorStore.Steps.{Reach, Reach-IsLive}

save_lem :
    (e : Env) (s : ConnectorStore) (k : String)
    → validate_api_key (save e s) k ≡ validate_api_key s k
unfolding save validate_api_key
save_lem e s k = ground arith

validate-parts :
    (s : ConnectorStore) (k : String) (r : ℕ) (c : Connector)
    → validate_api_key s k ≡ some (r, c)
    → (lookup k s.index ≡ some r) × (s.cells r ≡ some c) × (is_approved c.status ≡ true)
unfolding validate_api_key
validate-parts s k r c h = ground arith

validate_of_parts :
    (s : ConnectorStore) (k : String) (r : ℕ) (c : Connector)
    → lookup k s.index ≡ some r
    → s.cells r ≡ some c
    → is_approved c.status ≡ true
    → validate_api_key s k ≡ some (r, c)
unfolding validate_api_key
validate_of_parts s k r c f g a = ground arith

module _ (e : Env) (s : ConnectorStore) (i : String) (r : ℕ) (c : Connector)
    (found : get_by_id s i ≡ some (r, c)) where
  -- Approving a pending connector gives a key, which is accepted from then on, for that connector
  -- with the status approved.
  pub validate-approve :
      is_pending c.status ≡ true
      → ((approve e i s).0 ≡ some (append "ck-" e.hex))
        × (validate_api_key (approve e i s).1 (append "ck-" e.hex)
            ≡ some (
              r,
              record c { api_key = some (append "ck-" e.hex); status = ConnectorStatus.approved },
            ))
  unfolding approve write
  validate-approve p =
      let key = append "ck-" e.hex in
      let d : Connector = record c { api_key = some key; status = ConnectorStatus.approved } in
      let t : ConnectorStore = record s {
        cells = write r d s.cells;
        index = insert key r s.index;
      } in
      rw (found, approve)
        (rw p (
          refl,
          save_lem e t key
              ∙ validate_of_parts t key r d
                  (ground (arith, lookup-insert key key r s.index, eq_iff key key)) (ground arith)
                  refl,
        ))

  -- A connector that is not pending gets no key, and the store stays as it was.
  pub approve_decided : is_pending c.status ≡ false → approve e i s ≡ (none, s)
  unfolding approve
  approve_decided p = rw (found, approve) (rw p)

  revoked_store : ConnectorStore
  unfolding drop_key write
  revoked_store = record s {
    cells = write r (record c { status = ConnectorStatus.revoked }) s.cells;
    index = drop_key c.api_key s.index;
  }

  validate-revoked_store :
      (k : String) (q : ℕ) (d : Connector)
      → IsValid s
      → validate_api_key revoked_store k ≡ some (q, d)
      → (d.connector_id ≢ i) × (validate_api_key s k ≡ some (q, d))
  unfolding revoked_store
  validate-revoked_store k q d v h =
      let (f, g, a) = validate-parts revoked_store k q d h in
      let old = (lookup-drop_key c.api_key k s.index q f).0 in
      let (known, held) = get_by_id-parts s i r c found in
      (
        λ same. ground (arith, v.key_own k q d, ap (λ j. lookup j s.connectors) same),
        validate_of_parts s k q d old (ground arith) a,
      )

  deleted_store : ConnectorStore
  unfolding drop_key
  deleted_store = record s {
    index = drop_key c.api_key s.index;
    connectors = remove i s.connectors;
  }

  validate-deleted_store :
      (k : String) (q : ℕ) (d : Connector)
      → IsValid s
      → validate_api_key deleted_store k ≡ some (q, d)
      → (d.connector_id ≢ i) × (validate_api_key s k ≡ some (q, d))
  unfolding deleted_store
  validate-deleted_store k q d v h =
      let (f, g, a) = validate-parts deleted_store k q d h in
      let (old, dropped) = lookup-drop_key c.api_key k s.index q f in
      let (known, held) = get_by_id-parts s i r c found in
      (
        λ same.
            ground (arith, v.key_own k q d old g, ap (λ j. lookup j s.connectors) same, dropped),
        validate_of_parts s k q d old g a,
      )

-- A key is accepted only for a connector that the store knows by its identity.
validate-known :
    (s : ConnectorStore) (i k : String) (q : ℕ) (d : Connector)
    → IsValid s
    → validate_api_key s k ≡ some (q, d)
    → get_by_id s i ≡ none
    → d.connector_id ≢ i
unfolding get_by_id
validate-known s i k q d v h x same =
    let (f, g, a) = validate-parts s k q d h in
    ground (arith, v.key_own k q d f g, ap (λ j. lookup j s.connectors) same)

-- Once a connector is revoked no key is accepted for it, and a key that is accepted was accepted
-- before, for the same connector. The same where the identity to revoke is unknown.
pub validate-revoke :
    (e : Env) (s : ConnectorStore) (i k : String) (q : ℕ) (d : Connector)
    → IsValid s
    → validate_api_key (revoke e i s).1 k ≡ some (q, d)
    → (d.connector_id ≢ i) × (validate_api_key s k ≡ some (q, d))
unfolding revoke
validate-revoke e s i k q d v h = elim (Option-cases (get_by_id s i)) [
  | inl x ↦ let g = rw (x, revoke) at h in (validate-known s i k q d v g x, g)
  | inr ((r, c), x) ↦ validate-revoked_store e s i r c x k q d v (
      sym (save_lem e (revoked_store e s i r c x) k)
      ∙ (unfold revoked_store in rw (x, revoke) at h))
]

-- Once a connector is deleted no key is accepted for it, and a key that is accepted was accepted
-- before, for the same connector. The same where the identity to delete is unknown.
pub validate-delete :
    (e : Env) (s : ConnectorStore) (i k : String) (q : ℕ) (d : Connector)
    → IsValid s
    → validate_api_key (delete e i s).1 k ≡ some (q, d)
    → (d.connector_id ≢ i) × (validate_api_key s k ≡ some (q, d))
unfolding delete
validate-delete e s i k q d v h = elim (Option-cases (get_by_id s i)) [
  | inl x ↦ let g = rw (x, delete) at h in (validate-known s i k q d v g x, g)
  | inr ((r, c), x) ↦ validate-deleted_store e s i r c x k q d v (
      sym (save_lem e (deleted_store e s i r c x) k)
      ∙ (unfold deleted_store in rw (x, delete) at h))
]

-- In a store that the operations reached from a new one, a revoked connector is never found by a
-- key: its key is as unknown as one that was never given.
pub get_by_api_key-live :
    {b : Bool} {t : ConnectorStore} (k : String) (r : ℕ) (c : Connector)
    → Reach (empty b) t
    → get_by_api_key t k ≡ some (r, c)
    → is_revoked c.status ≡ false
unfolding get_by_api_key
get_by_api_key-live {t} k r c reach h = ground (arith, (Reach-IsLive reach).live k r c)
