-- ===== src/ConnectorStore/Operations.antt =====
-- The invariant of the store under each operation.
use Prim.Native.String.{◌++◌ as append}
use remote_llmconnector.Shared.{
  lookup, Env, ℕ, String, Option, none, some, List, ◌≡◌, refl, truthy-append, Bool-cases,
  Option-cases, inl, inr,
}
use remote_llmconnector.ConnectorStore.Document.{ConnectorStatus, is_pending}
use remote_llmconnector.ConnectorStore.Store.{
  ConnectorStore, get_by_id, pending_connector, create_pending, approve, revoke, delete,
  update_last_used, update_last_connected, update_models,
}
use remote_llmconnector.ConnectorStore.Valid.{
  IsValid, save-IsValid, get_by_id-parts, add-IsValid, key-IsValid, drop-IsValid, remove-IsValid,
  modify_at-IsValid, touch-IsValid,
}

module _ (e : Env) (s : ConnectorStore) (v : IsValid s) where
  pub create_pending-IsValid :
      (models : List String) (name : Option String)
      → lookup (append "conn-" e.hex) s.connectors ≡ none
      → IsValid (create_pending e models name s).1
  unfolding create_pending
  create_pending-IsValid models name fresh =
      save-IsValid e _ (add-IsValid s v (pending_connector e models name) fresh)

  pub approve-IsValid : (i : String) → IsValid (approve e i s).1
  unfolding approve
  approve-IsValid i = elim (Option-cases (get_by_id s i)) [
    | inl h ↦ rw (h, approve) v
    | inr ((r, c), h) ↦ elim (Bool-cases (is_pending c.status)) [
      | inl p ↦
          rw (h, approve)
            (rw p (
              let (found, held) = get_by_id-parts s i r c h in
              save-IsValid e _ (
                key-IsValid s v i r c found held (append "ck-" e.hex) ConnectorStatus.approved p
                  refl (truthy-append "ck-" e.hex refl))))
      | inr p ↦ rw (h, approve) (rw p v)
    ]
  ]

  pub revoke-IsValid : (i : String) → IsValid (revoke e i s).1
  unfolding revoke
  revoke-IsValid i = elim (Option-cases (get_by_id s i)) [
    | inl h ↦ rw (h, revoke) v
    | inr ((r, c), h) ↦
        let (found, held) = get_by_id-parts s i r c h in
        rw (h, revoke)
          (save-IsValid e _ (drop-IsValid s v i r c found held ConnectorStatus.revoked))
  ]

  pub delete-IsValid : (i : String) → IsValid (delete e i s).1
  unfolding delete
  delete-IsValid i = elim (Option-cases (get_by_id s i)) [
    | inl h ↦ rw (h, delete) v
    | inr ((r, c), h) ↦
        let (found, held) = get_by_id-parts s i r c h in
        rw (h, delete) (save-IsValid e _ (remove-IsValid s v i r c found held))
  ]

  pub update_last_used-IsValid : (r : ℕ) → IsValid (update_last_used e r s)
  unfolding update_last_used
  update_last_used-IsValid r =
      save-IsValid e _
        (touch-IsValid s v (λ c. record c { last_used = some e.now }) r (λ c. (refl, refl, refl)))

  pub update_last_connected-IsValid : (r : ℕ) → IsValid (update_last_connected e r s)
  unfolding update_last_connected
  update_last_connected-IsValid r = save-IsValid e _ (
      touch-IsValid s v (λ c. record c { last_connected = some e.now }) r (λ c. (refl, refl, refl)))

  pub update_models-IsValid :
      (i : String) (models : List String) → IsValid (update_models e i models s).1
  unfolding update_models
  update_models-IsValid i models = elim (Option-cases (get_by_id s i)) [
    | inl h ↦ rw (h, update_models) v
    | inr ((r, c), h) ↦
        let (found, held) = get_by_id-parts s i r c h in
        rw (h, update_models)
          (save-IsValid e _ (
            modify_at-IsValid s v (λ c. record c { models = models }) r (λ c. (refl, refl, refl))
              (some c) held))
  ]
