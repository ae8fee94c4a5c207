-- ===== src/Portal/Follows.antt =====
-- What the portal's requests are for the parts that they use: operations of the user store and of
-- the preprompt store, and steps of the relay server.
use remote_llmconnector.Shared.{
  Dict, lookup, Env, ℕ, String, Bool, true, false, not, ◌||◌, Option, none, some, ◌≡◌, refl, ◌==◌,
  Bool-cases, Option-cases, inl, inr, truthy, arith,
}
use remote_llmconnector.UserStore.Document.{UserRole}
use remote_llmconnector.UserStore.Store.{UserStore, get_by_username, create_user, new_key}
use remote_llmconnector.UserStore.Valid.{IsValid}
use remote_llmconnector.UserStore.Steps as UserSteps
use remote_llmconnector.PrepromptStore
use remote_llmconnector.PrepromptStore.{PrepromptStore}
use remote_llmconnector.PrepromptStore.Defaults as Defaults
use remote_llmconnector.RelayServer.State.{RelayServer}
use remote_llmconnector.RelayServer.Steps as ServerSteps
use remote_llmconnector.Portal.State.{Portal}
use remote_llmconnector.Portal.Admin
use remote_llmconnector.Portal.Admin.{
  Action, add_user, toggle_block, toggle_role, save_settings, approve_connector, revoke_connector,
  delete_connector, form_text, add_with_id, handle_add_user, handle_toggle_block,
  handle_toggle_role, changed, save_preprompt, settings_action, form_action, settings_in,
  handle_save_settings, approved, handle_approve_connector, withdrawn, handle_revoke_connector,
  handle_delete_connector, perform, handle_post,
}

abbrev pub PrepromptReach : Option PrepromptStore → Option PrepromptStore → Type 0
PrepromptReach none none = Unit
PrepromptReach (some s) (some t) = Defaults.Reach s t
PrepromptReach _ _ = ⊥

-- What a request does to each part.
pub record Follows (p t : Portal) : Type 0 where
  pub users : UserSteps.Reach p.user_store t.user_store
  pub preprompts : PrepromptReach p.preprompt_store t.preprompt_store
  pub server : ServerSteps.Reach p.server t.server

same_preprompts : (o : Option PrepromptStore) → PrepromptReach o o
same_preprompts none = tt
same_preprompts (some s) = Defaults.Reach.here

pub same-Follows : (p : Portal) → Follows p p
same-Follows p = record {
  users = UserSteps.Reach.here;
  preprompts = same_preprompts p.preprompt_store;
  server = ServerSteps.Reach.here;
}

pub users-Follows :
    (p : Portal) {store : UserStore}
    → UserSteps.Step p.user_store store
    → Follows p (record p { user_store = store })
users-Follows p st = record {
  users = UserSteps.Reach.next UserSteps.Reach.here st;
  preprompts = same_preprompts p.preprompt_store;
  server = ServerSteps.Reach.here;
}

pub server-Follows :
    (p : Portal) {server : RelayServer}
    → ServerSteps.Reach p.server server
    → Follows p (record p { server = server })
server-Follows p reach = record {
  users = UserSteps.Reach.here;
  preprompts = same_preprompts p.preprompt_store;
  server = reach;
}

get_by_username-eq-none :
    (s : UserStore) (n : String) → IsValid s → get_by_username s n ≡ none → lookup n s.users ≡ none
unfolding get_by_username
get_by_username-eq-none s n v h = elim (Option-cases (lookup n s.users)) [
  | inl x ↦ x
  | inr (r, x) ↦ elim (Option-cases (s.cells r)) [
    | inl y ↦ absurd (v.user_cell n r x y)
    | inr (u, y) ↦ ground arith
  ]
]

-- A user whose name is not taken is created.
pub created-Follows :
    (e : Env) (p : Portal) (name : String) (id : ℕ) (role : Option UserRole)
    → IsValid p.user_store
    → lookup (new_key e) p.user_store.index ≡ none
    → get_by_username p.user_store name ≡ none
    → Follows p (record p { user_store = (create_user e name id role p.user_store).1 })
created-Follows e p name id role v fresh x =
    users-Follows p
      (UserSteps.Step.created e name id role (get_by_username-eq-none p.user_store name v x) fresh)

module _ (e : Env) (p : Portal) where
  add_with_id-Follows :
      (name : String) (id : Option ℕ)
      → IsValid p.user_store
      → lookup (new_key e) p.user_store.index ≡ none
      → Follows p (add_with_id e name id p).1
  add_with_id-Follows name none v fresh = same-Follows p
  add_with_id-Follows name (some id) v fresh =
      elim (Option-cases (get_by_username p.user_store name)) [
        | inl x ↦ rw (x, add_with_id) (created-Follows e p name id none v fresh x)
        | inr (u, x) ↦ rw (x, add_with_id) (same-Follows p)
      ]

  pub handle_add_user-Follows :
      (int : String → Option ℕ) (form : Dict String)
      → IsValid p.user_store
      → lookup (new_key e) p.user_store.index ≡ none
      → Follows p (handle_add_user int e form p).1
  unfolding handle_add_user
  handle_add_user-Follows int form v fresh =
      let name = form_text "gitlab_username" form in
      let id_text = form_text "gitlab_id" form in
      elim (Bool-cases (not (truthy name) || not (truthy id_text))) [
        | inl x ↦ rw (x, handle_add_user) (same-Follows p)
        | inr x ↦ rw (x, handle_add_user) (add_with_id-Follows name (int id_text) v fresh)
      ]

  pub handle_toggle_block-Follows : (name : String) → Follows p (handle_toggle_block e name p).1
  unfolding handle_toggle_block
  handle_toggle_block-Follows name = elim (Option-cases (get_by_username p.user_store name)) [
    | inl x ↦ rw (x, handle_toggle_block) (same-Follows p)
    | inr ((r, u), x) ↦
        rw (x, handle_toggle_block)
          (users-Follows p (UserSteps.Step.blocked e name (not u.blocked)))
  ]

  pub handle_toggle_role-Follows : (name : String) → Follows p (handle_toggle_role e name p).1
  unfolding handle_toggle_role
  handle_toggle_role-Follows name = elim (Option-cases (get_by_username p.user_store name)) [
    | inl x ↦ rw (x, handle_toggle_role) (same-Follows p)
    | inr ((r, u), x) ↦
        rw (x, handle_toggle_role)
          (users-Follows p (UserSteps.Step.roled e name (Admin.other_role u.role)))
  ]

module _ (e : Env) (p : Portal) (s : PrepromptStore) (h : p.preprompt_store ≡ some s) where
  stored-Follows :
      {t : PrepromptStore} → Defaults.Reach s t → Follows p (record p { preprompt_store = some t })
  stored-Follows reach = record {
    users = UserSteps.Reach.here;
    preprompts = rw h reach;
    server = ServerSteps.Reach.here;
  }

  changed-Follows :
      (name after : String) (result : Bool × PrepromptStore)
      → Defaults.Step s result.1
      → Follows p (changed name after result p).1
  changed-Follows name after (true, t) st =
      stored-Follows (Defaults.Reach.next Defaults.Reach.here st)
  changed-Follows name after (false, t) st =
      stored-Follows (Defaults.Reach.next Defaults.Reach.here st)

  save_preprompt-Follows : (form : Dict String) → Follows p (save_preprompt e form s p).1
  save_preprompt-Follows form = elim (Bool-cases (truthy (form_text "name" form))) [
    | inr x ↦ rw (x, save_preprompt) (same-Follows p)
    | inl x ↦
        let st =
          Defaults.Step.written e (form_text "name" form) (form_text "content" form)
            (Admin.is_on (lookup "is_default" form)) in
        rw (x, save_preprompt) (stored-Follows (Defaults.Reach.next Defaults.Reach.here st))
  ]

  settings_action-Follows :
      (action : String) (form : Dict String) → Follows p (settings_action e action form s p).1
  settings_action-Follows action form =
      let name = form_text "name" form in
      elim (Bool-cases (action == "save")) [
        | inl x ↦ rw (x, settings_action) (save_preprompt-Follows form)
        | inr x ↦ elim (Bool-cases (action == "delete")) [
          | inl y ↦ elim (Bool-cases (truthy name)) [
            | inl z ↦
                rw (x, y, z, settings_action)
                  (changed-Follows name _ (PrepromptStore.delete e name s)
                    (Defaults.Step.deleted e name))
            | inr z ↦ rw (x, y, z, settings_action) (same-Follows p)
          ]
          | inr y ↦ elim (Bool-cases (action == "set_default")) [
            | inl w ↦ elim (Bool-cases (truthy name)) [
              | inl z ↦
                  rw (x, y, w, z, settings_action)
                    (changed-Follows name _ (PrepromptStore.set_default e name s)
                      (Defaults.Step.chosen e name))
              | inr z ↦ rw (x, y, w, z, settings_action) (same-Follows p)
            ]
            | inr w ↦ rw (x, y, w, settings_action) (same-Follows p)
          ]
        ]
      ]

settings_in-Follows :
    (e : Env) (p : Portal) (form : Dict String) (o : Option PrepromptStore)
    → p.preprompt_store ≡ o
    → Follows p (settings_in e form o p).1
settings_in-Follows e p form none h = same-Follows p
settings_in-Follows e p form (some s) h = settings_action-Follows e p s h (form_action form) form

pub handle_save_settings-Follows :
    (e : Env) (p : Portal) (form : Dict String) → Follows p (handle_save_settings e form p).1
unfolding handle_save_settings
handle_save_settings-Follows e p form = settings_in-Follows e p form p.preprompt_store refl
