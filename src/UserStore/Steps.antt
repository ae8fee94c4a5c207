-- ===== src/UserStore/Steps.antt =====
-- The operations of `UserStore` in any order, from the empty store, and what they keep, where
-- `create_user` is called for names that the store does not have and `secrets` draws no key twice.
-- `create_user` itself does not ask: for a taken name it leaves the old key in the index. The code
-- that calls it (the sign-in of broker/auth.py and broker/test_auth.py) asks `get_by_username` first.
use remote_llmconnector.Shared.{
  lookup, has, Env, ℕ, String, Bool, true, Option, none, some, ◌≡◌, refl, arith, Option-cases, inl,
  inr,
}
use remote_llmconnector.UserStore.Document.{UserRole, User}
use remote_llmconnector.UserStore.Store.{
  UserStore, empty, get_by_username, new_key, new_user, chosen_role, create_user, update_last_used,
  set_blocked, set_role, regenerate_api_key, delete_user,
}
use remote_llmconnector.UserStore.Valid.{
  IsValid, empty-IsValid, save-IsValid, get_by_username-parts, add_user-IsValid, write-IsValid,
  replace_key-IsValid, drop_user-IsValid,
}

pub data Step (s : UserStore) : UserStore → Type 0 where
  created :
      (e : Env) (n : String) (id : ℕ) (role : Option UserRole)
      → lookup n s.users ≡ none
      → lookup (new_key e) s.index ≡ none
      → Step s (create_user e n id role s).1
  used : (e : Env) (r : ℕ) → Step s (update_last_used e r s)
  blocked : (e : Env) (n : String) (b : Bool) → Step s (set_blocked e n b s).1
  roled : (e : Env) (n : String) (role : UserRole) → Step s (set_role e n role s).1
  regenerated :
      (e : Env) (n : String)
      → lookup (new_key e) s.index ≡ none
      → Step s (regenerate_api_key e n s).1
  deleted : (e : Env) (n : String) → Step s (delete_user e n s).1

pub data Reach (s : UserStore) : UserStore → Type 0 where
  here : Reach s s
  next : {t u : UserStore} → Reach s t → Step t u → Reach s u

module _ (s : UserStore) (v : IsValid s) (n : String) where
  -- The key of a user that the store has is in the index.
  pub has-key :
      (r : ℕ) (u : User) → get_by_username s n ≡ some (r, u) → has u.api_key s.index ≡ true
  has-key r u h =
      let (a, b) = get_by_username-parts s n r u h in ground (arith, v.user_own n r u a b)

  set_blocked-IsValid : (e : Env) (b : Bool) → IsValid (set_blocked e n b s).1
  unfolding set_blocked
  set_blocked-IsValid e b = elim (Option-cases (get_by_username s n)) [
    | inl x ↦ rw (x, set_blocked) v
    | inr ((r, u), x) ↦
        rw (x, set_blocked)
          (save-IsValid e _ (
            write-IsValid s v r u (record u { blocked = b }) (get_by_username-parts s n r u x).1
              refl refl))
  ]

  set_role-IsValid : (e : Env) (role : UserRole) → IsValid (set_role e n role s).1
  unfolding set_role
  set_role-IsValid e role = elim (Option-cases (get_by_username s n)) [
    | inl x ↦ rw (x, set_role) v
    | inr ((r, u), x) ↦
        rw (x, set_role)
          (save-IsValid e _ (
            write-IsValid s v r u (record u { role = role }) (get_by_username-parts s n r u x).1
              refl refl))
  ]

  regenerate_api_key-IsValid :
      (e : Env) → lookup (new_key e) s.index ≡ none → IsValid (regenerate_api_key e n s).1
  unfolding regenerate_api_key
  regenerate_api_key-IsValid e fresh = elim (Option-cases (get_by_username s n)) [
    | inl x ↦ rw (x, regenerate_api_key) v
    | inr ((r, u), x) ↦
        rw (x, regenerate_api_key)
          (rw (has-key r u x)
            (save-IsValid e _ (replace_key-IsValid s v n r u x (new_key e) fresh)))
  ]

  delete_user-IsValid : (e : Env) → IsValid (delete_user e n s).1
  unfolding delete_user
  delete_user-IsValid e = elim (Option-cases (get_by_username s n)) [
    | inl x ↦ rw (x, delete_user) v
    | inr ((r, u), x) ↦
        rw (x, delete_user) (rw (has-key r u x) (save-IsValid e _ (drop_user-IsValid s v n r u x)))
  ]

update_last_used-IsValid :
    (s : UserStore) (v : IsValid s) (e : Env) (r : ℕ) → IsValid (update_last_used e r s)
unfolding update_last_used
update_last_used-IsValid s v e r = elim (Option-cases (s.cells r)) [
  | inl x ↦ rw (x, update_last_used) (save-IsValid e s v)
  | inr (u, x) ↦
      rw (x, update_last_used)
        (save-IsValid e _ (write-IsValid s v r u (record u { last_used = some e.now }) x refl refl))
]

pub Step-IsValid : {s t : UserStore} → Step s t → IsValid s → IsValid t
unfolding create_user
Step-IsValid {s} (created e n id role f g) v =
    save-IsValid e _ (add_user-IsValid s v (new_user e n id (chosen_role role s.users)) f g)
Step-IsValid {s} (used e r) v = update_last_used-IsValid s v e r
Step-IsValid {s} (blocked e n b) v = set_blocked-IsValid s v n e b
Step-IsValid {s} (roled e n role) v = set_role-IsValid s v n e role
Step-IsValid {s} (regenerated e n f) v = regenerate_api_key-IsValid s v n e f
Step-IsValid {s} (deleted e n) v = delete_user-IsValid s v n e

-- Every store that the operations lead to from the empty one, where no user is created under a name
-- that the store has at the time and no drawn key is in use, is well formed: names and keys refer to
-- the same users, each under its own name and its own key.
pub users-IsValid : (b : Bool) {s : UserStore} → Reach (empty b) s → IsValid s
users-IsValid b here = empty-IsValid b
users-IsValid b (next r st) = Step-IsValid st (users-IsValid b r)
