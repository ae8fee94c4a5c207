-- ===== src/UserStore/Valid.antt =====
-- Well-formedness of the user store, kept by every operation; in a well-formed store no operation
-- raises a KeyError.
use remote_llmconnector.Shared.{
  lookup, insert, remove, write, Env, ℕ, ◌<◌, String, Bool, none, some, ◌≡◌, ◌≢◌, arith, eq_iff,
  Option-cases, inl, inr, lookup-insert, lookup-remove,
}
use remote_llmconnector.UserStore.Document.{User}
use remote_llmconnector.UserStore.Store.{UserStore, empty, save, get_by_username, add_user}

pub record IsValid (s : UserStore) : Type 0 where
  -- A name refers to an object with that name, whose key refers to it too.
  pub user_cell : (n : String) (r : ℕ) → lookup n s.users ≡ some r → s.cells r ≢ none
  pub user_own :
      (n : String) (r : ℕ) (u : User)
      → lookup n s.users ≡ some r
      → s.cells r ≡ some u
      → (u.gitlab_username ≡ n) × (lookup u.api_key s.index ≡ some r)
  -- A key refers to an object with that key, whose name refers to it too.
  pub key_cell : (k : String) (r : ℕ) → lookup k s.index ≡ some r → s.cells r ≢ none
  pub key_own :
      (k : String) (r : ℕ) (u : User)
      → lookup k s.index ≡ some r
      → s.cells r ≡ some u
      → (u.api_key ≡ k) × (lookup u.gitlab_username s.users ≡ some r)
  -- References are handed out in order.
  pub bound : (r : ℕ) (u : User) → s.cells r ≡ some u → r < s.next

pub empty-IsValid : (b : Bool) → IsValid (empty b)
unfolding lookup
empty-IsValid b = record {
  user_cell = λ n r h. cc;
  user_own = λ n r u h e. cc;
  key_cell = λ k r h. cc;
  key_own = λ k r u h e. cc;
  bound = λ r u h. cc;
}

pub save-IsValid : (e : Env) (s : UserStore) → IsValid s → IsValid (save e s)
unfolding save
save-IsValid e s v = record {
  user_cell = λ n r h. ground (arith, v.user_cell n r);
  user_own = λ n r u h g. ground (arith, v.user_own n r u);
  key_cell = λ k r h. ground (arith, v.key_cell k r);
  key_own = λ k r u h g. ground (arith, v.key_own k r u);
  bound = λ r u h. ground (arith, v.bound r u);
}

pub get_by_username-parts :
    (s : UserStore) (n : String) (r : ℕ) (u : User)
    → get_by_username s n ≡ some (r, u)
    → (lookup n s.users ≡ some r) × (s.cells r ≡ some u)
unfolding get_by_username
get_by_username-parts s n r u h = ground arith

module _ (s : UserStore) (v : IsValid s) where
  user-lt : (n : String) (r : ℕ) → lookup n s.users ≡ some r → r < s.next
  user-lt n r h = elim (Option-cases (s.cells r)) [
    | inl e ↦ absurd (v.user_cell n r h e)
    | inr (u, e) ↦ v.bound r u e
  ]

  key-lt : (k : String) (r : ℕ) → lookup k s.index ≡ some r → r < s.next
  key-lt k r h = elim (Option-cases (s.cells r)) [
    | inl e ↦ absurd (v.key_cell k r h e)
    | inr (u, e) ↦ v.bound r u e
  ]

  pub add_user-IsValid :
      (x : User)
      → lookup x.gitlab_username s.users ≡ none
      → lookup x.api_key s.index ≡ none
      → IsValid (add_user x s)
  unfolding write
  add_user-IsValid x f g =
      let i = x.gitlab_username in
      let j = x.api_key in
      let n = s.next in
      record {
        user_cell = λ m r h. ground (arith, v.user_cell m r, lookup-insert i m n s.users);
        user_own = λ m r u h e. ground (
          arith,
          v.user_own m r u,
          user-lt m r,
          lookup-insert i m n s.users,
          lookup-insert j u.api_key n s.index,
          eq_iff i m,
          eq_iff j u.api_key,
        );
        key_cell = λ k r h. ground (arith, v.key_cell k r, lookup-insert j k n s.index);
        key_own = λ k r u h e. ground (
          arith,
          v.key_own k r u,
          key-lt k r,
          lookup-insert j k n s.index,
          lookup-insert i u.gitlab_username n s.users,
          eq_iff j k,
          eq_iff i u.gitlab_username,
        );
        bound = λ r u h. ground (arith, v.bound r u);
      }

  -- A change of an object that leaves its name and key.
  pub write-IsValid :
      (r : ℕ) (u w : User)
      → s.cells r ≡ some u
      → w.gitlab_username ≡ u.gitlab_username
      → w.api_key ≡ u.api_key
      → IsValid (record s { cells = write r w s.cells })
  unfolding write
  write-IsValid r u w h f g = record {
    user_cell = λ n q a. ground (arith, v.user_cell n q);
    user_own = λ n q x a b. ground (arith, v.user_own n q x, v.user_own n q u);
    key_cell = λ k q a. ground (arith, v.key_cell k q);
    key_own = λ k q x a b. ground (arith, v.key_own k q x, v.key_own k q u);
    bound = λ q x a. ground (arith, v.bound q x, v.bound q u);
  }

  module _ (n : String) (r : ℕ) (u : User) (found : get_by_username s n ≡ some (r, u)) where
    pub replace_key-IsValid :
        (key : String)
        → lookup key s.index ≡ none
        → IsValid (record s {
          index = insert key r (remove u.api_key s.index);
          cells = write r (record u { api_key = key }) s.cells;
        })
    unfolding write
    replace_key-IsValid key fresh =
        let (h, c) = get_by_username-parts s n r u found in
        let (own, entry) = v.user_own n r u h c in
        let old = u.api_key in
        let rest = remove u.api_key s.index in
        record {
          user_cell = λ m q a. ground (arith, v.user_cell m q);
          user_own = λ m q x a b. ground (
            arith,
            v.user_own m q x,
            v.user_own m q u,
            lookup-insert key x.api_key r rest,
            lookup-insert key key r rest,
            lookup-remove old x.api_key s.index,
            eq_iff key x.api_key,
            eq_iff key key,
            eq_iff old x.api_key,
          );
          key_cell = λ k q a.
              ground
                (arith, v.key_cell k q, lookup-insert key k r rest, lookup-remove old k s.index);
          key_own = λ k q x a b. ground (
            arith,
            v.key_own k q x,
            v.key_own k q u,
            lookup-insert key k r rest,
            lookup-remove old k s.index,
            eq_iff key k,
            eq_iff old k,
          );
          bound = λ q x a. ground (arith, v.bound q x, v.bound q u);
        }

    pub drop_user-IsValid :
        IsValid (record s { users = remove n s.users; index = remove u.api_key s.index })
    drop_user-IsValid =
        let (h, c) = get_by_username-parts s n r u found in
        let (own, entry) = v.user_own n r u h c in
        let old = u.api_key in
        record {
          user_cell = λ m q a. ground (arith, v.user_cell m q, lookup-remove n m s.users);
          user_own = λ m q x a b. ground (
            arith,
            v.user_own m q x,
            v.key_own old q x,
            lookup-remove n m s.users,
            lookup-remove old x.api_key s.index,
            eq_iff n m,
            eq_iff old x.api_key,
          );
          key_cell = λ k q a. ground (arith, v.key_cell k q, lookup-remove old k s.index);
          key_own = λ k q x a b. ground (
            arith,
            v.key_own k q x,
            v.user_own n q x,
            lookup-remove old k s.index,
            lookup-remove n x.gitlab_username s.users,
            eq_iff n x.gitlab_username,
            eq_iff old k,
          );
          bound = λ q x a. ground (arith, v.bound q x);
        }
