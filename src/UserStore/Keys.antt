-- ===== src/UserStore/Keys.antt =====
-- Which API keys the user store accepts, and what regenerating, deleting and blocking do to them.
use remote_llmconnector.Shared.{
  lookup, remove, write, Env, ℕ, String, Bool, true, false, none, some, ◌≡◌, ◌↔◌, refl, arith,
  eq_iff, if◌then◌else◌, lookup-insert, lookup-remove, ◌==◌,
}
use remote_llmconnector.UserStore.Document.{User}
use remote_llmconnector.UserStore.Store.{
  UserStore, empty, save, get_by_username, get_by_api_key, new_key, set_blocked, returned,
  regenerate_api_key, delete_user, validate_api_key,
}
use remote_llmconnector.UserStore.Valid.{IsValid, get_by_username-parts}
use remote_llmconnector.UserStore.Steps.{Reach, users-IsValid, has-key}

get_by_api_key-save :
    (e : Env) (s : UserStore) (k : String) → get_by_api_key (save e s) k ≡ get_by_api_key s k
unfolding save get_by_api_key
get_by_api_key-save e s k = ground arith

get_by_username-save :
    (e : Env) (s : UserStore) (n : String) → get_by_username (save e s) n ≡ get_by_username s n
unfolding save get_by_username
get_by_username-save e s n = ground arith

validate_api_key-save :
    (e : Env) (s : UserStore) (k : String) → validate_api_key (save e s) k ≡ validate_api_key s k
unfolding save validate_api_key get_by_api_key
validate_api_key-save e s k = ground arith

-- In a store that the operations lead to, where no user was created under a name that the store had
-- at the time and no drawn key was in use, a key is accepted exactly where it is the current key of a
-- user that the store has and that is not blocked.
pub validate_api_key-live :
    (b : Bool) {s : UserStore} (k : String) (r : ℕ) (u : User)
    → Reach (empty b) s
    → (validate_api_key s k ≡ some (r, u)) ↔ (
        (get_by_username s u.gitlab_username ≡ some (r, u)) × (u.api_key ≡ k) × (u.blocked ≡ false))
unfolding validate_api_key get_by_api_key get_by_username
validate_api_key-live b {s} k r u reach =
    let v = users-IsValid b reach in
    (λ h. ground (arith, v.key_own k r u), λ h. ground (arith, v.user_own u.gitlab_username r u))

module _ (b : Bool) {s : UserStore} (reach : Reach (empty b) s) (e : Env) (n : String) (r : ℕ)
    (u : User) (found : get_by_username s n ≡ some (r, u)) where
  abbrev valid : IsValid s
  valid = users-IsValid b reach

  -- In a store that the operations lead to, where no user was created under a taken name and no drawn
  -- key was in use, and with a new key that is not in the index: regenerating the key of a user returns the new key, without a KeyError. From then on the old key
  -- refers to nobody, the new one to the user, and every other key to whom it did.
  pub get_by_api_key-regenerate :
      (k : String)
      → lookup (new_key e) s.index ≡ none
      → let (result, t) = regenerate_api_key e n s in
        (result ≡ returned (some (new_key e)))
        × (get_by_api_key t k ≡ (
            if new_key e == k
            then some (r, record u { api_key = new_key e })
            else if u.api_key == k
            then none
            else get_by_api_key s k))
  unfolding regenerate_api_key get_by_api_key write
  get_by_api_key-regenerate k fresh =
      let (a, c) = get_by_username-parts s n r u found in
      let held = valid.user_own n r u a c in
      let key = new_key e in
      let old = u.api_key in
      rw (found, regenerate_api_key)
        (rw (has-key s valid n r u found) (
          rw get_by_api_key-save (
            refl,
            ground (
              arith,
              lookup-insert key k r (remove old s.index),
              lookup-remove old k s.index,
              eq_iff key k,
              eq_iff old k,
              valid.key_own k r u,
            ),
          )))

  -- Deleting a user returns True, without a KeyError, and from then on neither the name nor the key
  -- refers to anybody.
  pub get_by_api_key-delete :
      let (result, t) = delete_user e n s in
      (result ≡ returned true) × (get_by_username t n ≡ none) × (get_by_api_key t u.api_key ≡ none)
  unfolding delete_user get_by_api_key get_by_username
  get_by_api_key-delete =
      rw (found, delete_user)
        (rw (has-key s valid n r u found) (
          refl,
          rw get_by_username-save (ground (arith, lookup-remove n n s.users, eq_iff n n)),
          rw get_by_api_key-save (
              ground
                (arith, lookup-remove u.api_key u.api_key s.index, eq_iff u.api_key u.api_key)),
        ))

  -- Blocking a user makes its key refused, and unblocking makes it accepted again.
  pub validate-set_blocked :
      (stop : Bool)
      → let (result, t) = set_blocked e n stop s in
        (result ≡ true)
        × (validate_api_key t u.api_key
            ≡ (if stop then none else some (r, record u { blocked = stop })))
  unfolding set_blocked validate_api_key get_by_api_key write
  validate-set_blocked stop =
      let (a, c) = get_by_username-parts s n r u found in
      let held = valid.user_own n r u a c in
      rw (found, set_blocked) (refl, rw validate_api_key-save (ground arith))
