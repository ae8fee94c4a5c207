-- ===== src/UserStore/Names.antt =====
-- The users of a store have different names, and survive a restart: the file of broker/users.py.
use remote_llmconnector.Shared.{
  has, Env, ℕ, String, Bool, true, Option, some, [], map, ◌≡◌, refl, ap, ◌∙◌, arith, IsUnique,
  insert-IsUnique, remove-IsUnique, nil-IsApart, keyed, keyed-IsUnique, lookup-AllOwn, Bool-cases,
  Option-cases, inl, inr, truthy,
}
use remote_llmconnector.UserStore.Document.{UserRole, to_dict}
use remote_llmconnector.UserStore.Store.{
  UserStore, empty, load_all, load, get_all, save, get_by_username, create_user, update_last_used,
  set_blocked, set_role, regenerate_api_key, delete_user,
}
use remote_llmconnector.UserStore.Valid.{IsValid}
use remote_llmconnector.UserStore.Steps.{
  Step, created, used, blocked, roled, regenerated, deleted, Reach, here, next, users-IsValid,
}
use remote_llmconnector.UserStore.Reload.{get_all-load_all}

save-users : (e : Env) (s : UserStore) → (save e s).users ≡ s.users
unfolding save
save-users e s = ground arith

module _ (e : Env) (s : UserStore) (n : String) where
  set_blocked-users : (b : Bool) → (set_blocked e n b s).1.users ≡ s.users
  unfolding set_blocked
  set_blocked-users b = elim (Option-cases (get_by_username s n)) [
    | inl x ↦ rw (x, set_blocked) refl
    | inr (u, x) ↦ rw (x, set_blocked) (save-users e _)
  ]

  set_role-users : (role : UserRole) → (set_role e n role s).1.users ≡ s.users
  unfolding set_role
  set_role-users role = elim (Option-cases (get_by_username s n)) [
    | inl x ↦ rw (x, set_role) refl
    | inr (u, x) ↦ rw (x, set_role) (save-users e _)
  ]

  regenerate_api_key-users : (regenerate_api_key e n s).1.users ≡ s.users
  unfolding regenerate_api_key
  regenerate_api_key-users = elim (Option-cases (get_by_username s n)) [
    | inl x ↦ rw (x, regenerate_api_key) refl
    | inr ((r, u), x) ↦ elim (Bool-cases (has u.api_key s.index)) [
      | inl y ↦ rw (x, regenerate_api_key) (rw y (save-users e _))
      | inr y ↦ rw (x, regenerate_api_key) (rw y refl)
    ]
  ]

  delete_user-IsUnique : IsUnique s.users → IsUnique (delete_user e n s).1.users
  unfolding delete_user
  delete_user-IsUnique v = elim (Option-cases (get_by_username s n)) [
    | inl x ↦ rw (x, delete_user) v
    | inr ((r, u), x) ↦ elim (Bool-cases (has u.api_key s.index)) [
      | inl y ↦ rw (x, delete_user) (rw y (rw save-users (remove-IsUnique n s.users v)))
      | inr y ↦ rw (x, delete_user) (rw y (remove-IsUnique n s.users v))
    ]
  ]

Step-IsUnique : {s t : UserStore} → Step s t → IsUnique s.users → IsUnique t.users
unfolding create_user update_last_used
Step-IsUnique {s} (created e n id role f g) v = rw save-users (insert-IsUnique n s.next s.users v)
Step-IsUnique {s} (used e r) v = rw save-users v
Step-IsUnique {s} (blocked e n b) v = rw (set_blocked-users e s n b) v
Step-IsUnique {s} (roled e n role) v = rw (set_role-users e s n role) v
Step-IsUnique {s} (regenerated e n f) v = rw (regenerate_api_key-users e s n) v
Step-IsUnique {s} (deleted e n) v = delete_user-IsUnique e s n v

Reach-IsUnique : (b : Bool) {s : UserStore} → Reach (empty b) s → IsUnique s.users
Reach-IsUnique b here = tt
Reach-IsUnique b (next r st) = Step-IsUnique st (Reach-IsUnique b r)

-- The users of a well-formed store have different names.
keyed-get_all :
    (s : UserStore)
    → IsValid s
    → IsUnique s.users
    → IsUnique (keyed (λ u. u.gitlab_username) (get_all s))
unfolding get_all
keyed-get_all s v w =
    keyed-IsUnique (λ u. u.gitlab_username) s.cells s.users
      (lookup-AllOwn (λ u. u.gitlab_username) s.cells s.users w
        (λ n r h. elim (Option-cases (s.cells r)) [
          | inl x ↦ absurd (v.user_cell n r h x)
          | inr (u, x) ↦ (u, x, (v.user_own n r u h x).0)
        ]))
      w

-- Whatever the operations have made of a user store, users being created only under names that the
-- store does not have and with keys that are not in use, where the store saves to a file that can be
-- written, a broker that starts again from that file has the same users, each with the same key,
-- role and marks, in the same order. (`fromisoformat` reads what `isoformat` writes, which is never
-- empty.)
pub get_all-load :
    (fromisoformat : String → Option ℕ) (b : Bool) (e : Env) {s : UserStore}
    → ((t : ℕ) → fromisoformat (e.isoformat t) ≡ some t)
    → ((t : ℕ) → truthy (e.isoformat t) ≡ true)
    → Reach (empty b) s
    → s.has_file ≡ true
    → e.writable ≡ true
    → get_all (load fromisoformat true (some (save e s).disk)) ≡ get_all s
unfolding load save
get_all-load fromisoformat b e {s} read_back is_text reach file writable =
    let v = users-IsValid b reach in
    let w = Reach-IsUnique b reach in
    let docs = map (to_dict e.isoformat) (get_all s) in
    let written : (save e s).disk ≡ docs = rw (file, writable, save) refl in
    ap (λ x. get_all (load_all fromisoformat x (record (empty true) { disk = x }))) written
    ∙ get_all-load_all e.isoformat fromisoformat read_back is_text (get_all s)
        (record (empty true) { disk = docs }) (keyed-get_all s v w)
        (nil-IsApart (keyed (λ u. u.gitlab_username) (get_all s)) [] refl) tt
