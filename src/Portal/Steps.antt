-- ===== src/Portal/Steps.antt =====
-- Every request to the portal is a sequence of steps of the parts that it uses.
use remote_llmconnector.Shared.{
  lookup, Env, ℕ, String, Bool, Option, none, some, ◌≡◌, refl, Bool-cases, inl, inr, truthy,
}
use remote_llmconnector.UserStore.Store.{new_key}
use remote_llmconnector.UserStore.Valid.{IsValid}
use remote_llmconnector.ConnectorStore.Store
use remote_llmconnector.ConnectorStore.Store.{ConnectorStore, approve, revoke}
use remote_llmconnector.RelayServer.Steps as ServerSteps
use remote_llmconnector.Portal.State.{Session, Portal, refused, granted, require_admin, Access}
use remote_llmconnector.Portal.Admin.{
  Action, add_user, toggle_block, toggle_role, save_settings, approve_connector, revoke_connector,
  delete_connector, approved, approve_in, handle_approve_connector, withdrawn, revoke_in,
  handle_revoke_connector, delete_in, handle_delete_connector, perform, handle_post,
}
use remote_llmconnector.Portal.Follows.{
  Follows, same-Follows, server-Follows, handle_add_user-Follows, handle_toggle_block-Follows,
  handle_toggle_role-Follows, handle_save_settings-Follows,
}

module _ (e : Env) (up : Bool) (name : String) (p : Portal) where
  approved-Follows :
      (result : Option String × ConnectorStore) → Follows p (approved up name result p).1
  approved-Follows (none, store) =
      server-Follows p
        (ServerSteps.Reach.next ServerSteps.Reach.here (ServerSteps.Step.administered (some store)))
  approved-Follows (some key, store) =
      let one =
        ServerSteps.Reach.next ServerSteps.Reach.here
          (ServerSteps.Step.administered (some store)) in
      elim (Bool-cases (truthy key)) [
        | inl x ↦
            rw (x, approved)
              (server-Follows p
                (ServerSteps.Reach.next one (ServerSteps.Step.notified up name key)))
        | inr x ↦ rw (x, approved) (server-Follows p one)
      ]

  withdrawn-Follows :
      (reason after : String) (result : Bool × ConnectorStore)
      → Follows p (withdrawn e up name reason after result p).1
  withdrawn-Follows reason after (done, store) =
      let one =
        ServerSteps.Reach.next ServerSteps.Reach.here
          (ServerSteps.Step.administered (some store)) in
      elim (Bool-cases done) [
        | inl x ↦
            rw (x, withdrawn)
              (server-Follows p
                (ServerSteps.Reach.next one (ServerSteps.Step.revoked e up name (some reason))))
        | inr x ↦ rw (x, withdrawn) (server-Follows p one)
      ]

  approve_in-Follows : (o : Option ConnectorStore) → Follows p (approve_in e up name o p).1
  approve_in-Follows none = same-Follows p
  approve_in-Follows (some store) = approved-Follows (approve e name store)

  revoke_in-Follows : (o : Option ConnectorStore) → Follows p (revoke_in e up name o p).1
  revoke_in-Follows none = same-Follows p
  revoke_in-Follows (some store) = withdrawn-Follows _ _ (revoke e name store)

  delete_in-Follows : (o : Option ConnectorStore) → Follows p (delete_in e up name o p).1
  delete_in-Follows none = same-Follows p
  delete_in-Follows (some store) = withdrawn-Follows _ _ (Store.delete e name store)

perform-Follows :
    (int : String → Option ℕ) (e : Env) (up : Bool) (action : Action) (p : Portal)
    → IsValid p.user_store
    → lookup (new_key e) p.user_store.index ≡ none
    → Follows p (perform int e up action p).1
unfolding handle_approve_connector handle_revoke_connector handle_delete_connector
perform-Follows int e up (add_user form) p v fresh = handle_add_user-Follows e p int form v fresh
perform-Follows int e up (toggle_block name) p v fresh = handle_toggle_block-Follows e p name
perform-Follows int e up (toggle_role name) p v fresh = handle_toggle_role-Follows e p name
perform-Follows int e up (save_settings form) p v fresh = handle_save_settings-Follows e p form
perform-Follows int e up (approve_connector name) p v fresh =
    approve_in-Follows e up name p p.server.connector_store
perform-Follows int e up (revoke_connector name) p v fresh =
    revoke_in-Follows e up name p p.server.connector_store
perform-Follows int e up (delete_connector name) p v fresh =
    delete_in-Follows e up name p p.server.connector_store

pub handle_post-Follows :
    (int : String → Option ℕ) (e : Env) (up : Bool) (action : Action) (session : Session)
    (p : Portal)
    → IsValid p.user_store
    → lookup (new_key e) p.user_store.index ≡ none
    → Follows p (handle_post int e up action session p).2
unfolding handle_post
handle_post-Follows int e up action session p v fresh = go (require_admin session p.user_store) refl
  where
    go :
        (a : Access)
        → require_admin session p.user_store ≡ a
        → Follows p (handle_post int e up action session p).2
    go (refused answer left) x = rw (x, handle_post) (same-Follows p)
    go (granted u) x = rw (x, handle_post) (perform-Follows int e up action p v fresh)
