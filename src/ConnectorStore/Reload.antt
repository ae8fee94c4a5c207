-- ===== src/ConnectorStore/Reload.antt =====
-- The file of broker/connectors.py: what `_load` makes of what `_save` wrote.
use mathlib.Core.List.{append_assoc, append-nil}
use remote_llmconnector.Shared.{
  lookup, values, Env, ℕ, String, Bool, true, Option, none, some, List, [], ◌∷◌, ◌++◌, map, ◌≡◌,
  refl, ap, sym, ◌∙◌, subst, arith, insert_fresh, IsUnique, insert-IsUnique, remove-IsUnique,
  IsApart, append-IsApart, nil-IsApart, keyed, keyed-IsUnique, lookup-AllOwn, AllBelow,
  values-AllBelow, objects-insert, Bool-cases, Option-cases, inl, inr, truthy,
}
use remote_llmconnector.ConnectorStore.Document.{
  Connector, to_dict, from_dict-to_dict_connector, is_pending,
}
use remote_llmconnector.ConnectorStore.Store.{
  ConnectorStore, empty, load_connector, load_all, load, get_all, save, get_by_id, create_pending,
  approve, revoke, delete, update_last_used, update_last_connected, update_models,
}
use remote_llmconnector.ConnectorStore.Valid.{IsValid, empty-IsValid}
use remote_llmconnector.ConnectorStore.Steps.{
  Step, created, approved, revoked, deleted, used, connected, offered, Reach, here, next,
  Reach-IsValid,
}

get_all-load_connector :
    (c : Connector) (s : ConnectorStore)
    → lookup c.connector_id s.connectors ≡ none
    → AllBelow s.next (values s.connectors)
    → get_all (load_connector c s) ≡ get_all s ++ (c ∷ [])
unfolding get_all load_connector
get_all-load_connector c s h below =
    objects-insert c.connector_id s.next c s.cells s.connectors h below

module _ (isoformat : ℕ → String) (fromisoformat : String → Option ℕ)
    (read_back : (t : ℕ) → fromisoformat (isoformat t) ≡ some t)
    (is_text : (t : ℕ) → truthy (isoformat t) ≡ true) where
  get_all-load_all :
      (cs : List Connector) (s : ConnectorStore)
      → IsUnique (keyed (λ c. c.connector_id) cs)
      → IsApart (keyed (λ c. c.connector_id) cs) s.connectors
      → AllBelow s.next (values s.connectors)
      → get_all (load_all fromisoformat (map (to_dict isoformat) cs) s) ≡ get_all s ++ cs
  unfolding load_all load_connector
  get_all-load_all [] s n a below = sym (append-nil (get_all s))
  get_all-load_all (c ∷ cs) s n a below =
      let i = c.connector_id in
      let rest = keyed (λ w. w.connector_id) cs in
      rw (from_dict-to_dict_connector isoformat fromisoformat read_back is_text c, load_all)
        (get_all-load_all cs (load_connector c s) n.1
            (subst (λ d. IsApart rest d) (sym (insert_fresh i s.next s.connectors (a.0)))
              (append-IsApart i s.next rest s.connectors (n.0) a.1))
            (values-AllBelow i s.next s.connectors (a.0) below)
          ∙ ap (λ l. l ++ cs) (get_all-load_connector c s (a.0) below)
          ∙ append_assoc (get_all s) (c ∷ []) cs)

save-connectors : (e : Env) (s : ConnectorStore) → (save e s).connectors ≡ s.connectors
unfolding save
save-connectors e s = ground arith

module _ (e : Env) (s : ConnectorStore) (i : String) where
  approve-connectors : (approve e i s).1.connectors ≡ s.connectors
  unfolding approve
  approve-connectors = elim (Option-cases (get_by_id s i)) [
    | inl x ↦ rw (x, approve) refl
    | inr ((r, c), x) ↦ elim (Bool-cases (is_pending c.status)) [
      | inl y ↦ rw (x, approve) (rw y (save-connectors e _))
      | inr y ↦ rw (x, approve) (rw y refl)
    ]
  ]

  revoke-connectors : (revoke e i s).1.connectors ≡ s.connectors
  unfolding revoke
  revoke-connectors = elim (Option-cases (get_by_id s i)) [
    | inl x ↦ rw (x, revoke) refl
    | inr ((r, c), x) ↦ rw (x, revoke) (save-connectors e _)
  ]

  delete-IsUnique : IsUnique s.connectors → IsUnique (delete e i s).1.connectors
  unfolding delete
  delete-IsUnique v = elim (Option-cases (get_by_id s i)) [
    | inl x ↦ rw (x, delete) v
    | inr ((r, c), x) ↦ rw (x, delete) (rw save-connectors (remove-IsUnique i s.connectors v))
  ]

  update_models-connectors :
      (models : List String) → (update_models e i models s).1.connectors ≡ s.connectors
  unfolding update_models
  update_models-connectors models = elim (Option-cases (get_by_id s i)) [
    | inl x ↦ rw (x, update_models) refl
    | inr ((r, c), x) ↦ rw (x, update_models) (save-connectors e _)
  ]

Step-IsUnique : {s t : ConnectorStore} → Step s t → IsUnique s.connectors → IsUnique t.connectors
unfolding create_pending update_last_used update_last_connected
Step-IsUnique {s} (created e models name f) v =
    rw save-connectors (insert-IsUnique _ s.next s.connectors v)
Step-IsUnique {s} (approved e i) v = rw (approve-connectors e s i) v
Step-IsUnique {s} (revoked e i) v = rw (revoke-connectors e s i) v
Step-IsUnique {s} (deleted e i) v = delete-IsUnique e s i v
Step-IsUnique {s} (used e r) v = rw save-connectors v
Step-IsUnique {s} (connected e r) v = rw save-connectors v
Step-IsUnique {s} (offered e i models) v = rw (update_models-connectors e s i models) v

Reach-IsUnique : (b : Bool) {s : ConnectorStore} → Reach (empty b) s → IsUnique s.connectors
Reach-IsUnique b here = tt
Reach-IsUnique b (next r st) = Step-IsUnique st (Reach-IsUnique b r)

-- The connectors of a well-formed store have different ids.
keyed-get_all :
    (s : ConnectorStore)
    → IsValid s
    → IsUnique s.connectors
    → IsUnique (keyed (λ c. c.connector_id) (get_all s))
unfolding get_all
keyed-get_all s v w =
    keyed-IsUnique (λ c. c.connector_id) s.cells s.connectors
      (lookup-AllOwn (λ c. c.connector_id) s.cells s.connectors w
        (λ i r h. elim (Option-cases (s.cells r)) [
          | inl x ↦ absurd (v.id_cell i r h x)
          | inr (c, x) ↦ (c, x, v.id_own i r c h x)
        ]))
      w

-- Whatever the operations have made of a connector store, where the store saves to a file that can be
-- written, a broker that starts again from that file knows the same connectors, each with the same
-- status, key, models and times, in the same order. (`fromisoformat` reads what `isoformat` writes,
-- which is never empty.)
pub connectors-load :
    (fromisoformat : String → Option ℕ) (b : Bool) (e : Env) {s : ConnectorStore}
    → ((t : ℕ) → fromisoformat (e.isoformat t) ≡ some t)
    → ((t : ℕ) → truthy (e.isoformat t) ≡ true)
    → Reach (empty b) s
    → s.has_file ≡ true
    → e.writable ≡ true
    → get_all (load fromisoformat true (some (save e s).disk)) ≡ get_all s
unfolding load save
connectors-load fromisoformat b e {s} read_back is_text reach file writable =
    let v = Reach-IsValid reach (empty-IsValid b) in
    let w = Reach-IsUnique b reach in
    let docs = map (to_dict e.isoformat) (get_all s) in
    let written : (save e s).disk ≡ docs = rw (file, writable, save) refl in
    ap (λ x. get_all (load_all fromisoformat x (record (empty true) { disk = x }))) written
    ∙ get_all-load_all e.isoformat fromisoformat read_back is_text (get_all s)
        (record (empty true) { disk = docs }) (keyed-get_all s v w)
        (nil-IsApart (keyed (λ c. c.connector_id) (get_all s)) [] refl) tt
