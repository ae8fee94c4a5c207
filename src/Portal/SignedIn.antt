-- ===== src/Portal/SignedIn.antt =====
-- What it takes to be signed in by the OAuth callback of broker/auth.py.
use remote_llmconnector.Shared.{
  Dict, lookup, Env, ℕ, String, true, false, Option, none, some, ◌≡◌, ◌≢◌, refl, subst, sym, eq_iff,
  Bool-cases, inl, inr, truthy, arith,
}
use remote_llmconnector.UserStore.Document.{User}
use remote_llmconnector.UserStore.Store.{get_by_username}
use remote_llmconnector.UserStore.Valid.{IsValid}
use remote_llmconnector.Portal.State.{Session, Portal, Answer, granted, require_admin, require_user}
use remote_llmconnector.Portal.SignIn.{
  AuthHandler, OauthClient, UserInfo, known_user, session_user, sign_in, with_code, with_info,
  with_user, read_user, handle_callback, if_given, is_expected, blocked_answer,
}
use remote_llmconnector.Portal.Callback.{known_user_present, opened_for, session_user-access}

-- The session is that of a user of the portal who is not blocked, and opens the pages that the user
-- may see.
pub record Opens (name : String) (after : Session) (t : Portal) : Type 0 where
  pub user : User
  pub named : user.gitlab_username ≡ name
  pub unblocked : user.blocked ≡ false
  pub session : after.user ≡ some (session_user user)
  pub pages : require_user after t.user_store ≡ granted user
  pub admin_pages : require_admin after t.user_store ≡ opened_for user after

-- How a browser came to be signed in: it brought back the state of its own session, with a code for
-- which GitLab told the user.
pub record IsSignedIn (h : AuthHandler) (client : OauthClient) (query : Dict String)
    (before after : Session) (t : Portal) : Type 0 where
  pub state : String
  pub code : String
  pub info : UserInfo
  pub name : String
  pub id : ℕ
  pub returned : lookup "state" query ≡ some state
  pub expected : before.oauth_state ≡ some state
  pub brought : lookup "code" query ≡ some code
  pub told : client.exchange h.token_url h.userinfo_url code ≡ some info
  pub read : read_user info ≡ some (name, id)
  pub opens : Opens name after t

module _ (e : Env) (p : Portal) (v : IsValid p.user_store) where
  sign_in-Opens :
      (home : String) (refusal : Answer) (name : String) (id : ℕ) (session : Session)
      → (sign_in e home refusal name id session p).1.user ≢ session.user
      → let (answer, after, t) = sign_in e home refusal name id session p in Opens name after t
  unfolding sign_in
  sign_in-Opens home refusal name id session changed =
      let (u, store) = known_user e name id p.user_store in
      let (named, r, present) = known_user_present e name id p.user_store v in
      let after = record session { user = some (session_user u) } in
      elim (Bool-cases u.blocked) [
        | inl x ↦ absurd (changed (rw (x, sign_in) refl))
        | inr x ↦
            let (pages, admin_pages) =
              session_user-access after store r u refl
                (subst (λ n. get_by_username store n ≡ some (r, u)) (sym named) present) x in
            rw (x, sign_in)
              (record {
                user = u;
                named = named;
                unblocked = x;
                session = refl;
                pages = pages;
                admin_pages = admin_pages;
              })
      ]

  with_user-Opens :
      (o : Option (String × ℕ)) (session : Session)
      → (with_user e o session p).1.user ≢ session.user
      → let (answer, after, t) = with_user e o session p in
        (name : String) × (id : ℕ) × (o ≡ some (name, id)) × Opens name after t
  with_user-Opens none session changed = absurd (changed refl)
  with_user-Opens (some (name, id)) session changed =
      (name, id, refl, sign_in-Opens "/dashboard" blocked_answer name id session changed)

  with_info-Opens :
      (o : Option UserInfo) (session : Session)
      → (with_info e o session p).1.user ≢ session.user
      → let (answer, after, t) = with_info e o session p in
        (info : UserInfo) × (o ≡ some info)
        × (name : String) × (id : ℕ) × (read_user info ≡ some (name, id))
        × Opens name after t
  with_info-Opens none session changed = absurd (changed refl)
  with_info-Opens (some info) session changed =
      let (name, id, read, opens) = with_user-Opens (read_user info) session changed in
      (info, refl, name, id, read, opens)

  module _ (h : AuthHandler) (client : OauthClient) where
    with_code-Opens :
        (o : Option String) (session : Session)
        → (with_code h client e o session p).1.user ≢ session.user
        → let (answer, after, t) = with_code h client e o session p in
          (code : String) × (o ≡ some code)
          × (info : UserInfo) × (client.exchange h.token_url h.userinfo_url code ≡ some info)
          × (name : String) × (id : ℕ) × (read_user info ≡ some (name, id))
          × Opens name after t
    with_code-Opens none session changed = absurd (changed refl)
    with_code-Opens (some code) session changed = elim (Bool-cases (truthy code)) [
      | inr x ↦ absurd (changed (rw (x, with_code) refl))
      | inl x ↦
          let o = client.exchange h.token_url h.userinfo_url code in
          let same : with_code h client e (some code) session p ≡ with_info e o session p =
            rw (x, with_code) refl in
          let (info, told, name, id, read, opens) =
            with_info-Opens o session (rw same at changed) in
          rw same (code, refl, info, told, name, id, read, opens)
    ]

is_expected-eq-true :
    (o q : Option String)
    → is_expected o q ≡ true
    → (state : String) × (o ≡ some state) × (q ≡ some state)
is_expected-eq-true none q h = cc
is_expected-eq-true (some state) none h = cc
is_expected-eq-true (some state) (some wanted) h =
    (state, refl, ground (arith, eq_iff state wanted))

-- The OAuth callback changes the user of a session only where the browser brought back the state
-- that the portal had put into that same session, with a code for which GitLab told a user, and
-- that user is not blocked. The session is then the user's: it opens every user page, and the admin
-- pages exactly if the user is an admin.
pub handle_callback-IsSignedIn :
    (h : AuthHandler) (client : OauthClient) (e : Env) (query : Dict String) (session : Session)
    (p : Portal)
    → IsValid p.user_store
    → (handle_callback h client e query session p).1.user ≢ session.user
    → let (answer, after, t) = handle_callback h client e query session p in
      IsSignedIn h client query session after t
unfolding handle_callback
handle_callback-IsSignedIn h client e query session p v changed =
    let left = record session { oauth_state = none } in
    let o = lookup "code" query in
    elim (Bool-cases (is_expected (lookup "state" query) session.oauth_state)) [
      | inr x ↦ absurd (changed (rw (x, handle_callback) refl))
      | inl x ↦ elim (Bool-cases (if_given (lookup "error" query))) [
        | inl y ↦ absurd (changed (rw (x, y, handle_callback) refl))
        | inr y ↦
            let same : handle_callback h client e query session p ≡ with_code h client e o left p =
              rw (x, y, handle_callback) refl in
            let (state, returned, expected) =
              is_expected-eq-true (lookup "state" query) session.oauth_state x in
            let (code, brought, info, told, name, id, read, opens) =
              with_code-Opens e p v h client o left (rw same at changed) in
            rw same (record {
              state = state;
              code = code;
              info = info;
              name = name;
              id = id;
              returned = returned;
              expected = expected;
              brought = brought;
              told = told;
              read = read;
              opens = opens;
            })
      ]
    ]
