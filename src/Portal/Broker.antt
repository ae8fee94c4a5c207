-- ===== src/Portal/Broker.antt =====
-- Signing in, as steps of the user store; and the whole broker as one system: portal requests,
-- sign-ins and steps of the relay server, in any order.
use remote_llmconnector.Shared.{
  Dict, lookup, Env, ℕ, String, Bool, not, Option, none, some, ◌≡◌, Bool-cases, Option-cases, inl,
  inr, truthy, replace,
}
use remote_llmconnector.UserStore.Store.{get_by_username, new_key}
use remote_llmconnector.UserStore.Valid.{IsValid}
use remote_llmconnector.UserStore.Steps as UserSteps
use remote_llmconnector.RelayServer.State.{RelayServer}
use remote_llmconnector.RelayServer.Steps as ServerSteps
use remote_llmconnector.Portal.State.{Session, Portal, Answer}
use remote_llmconnector.Portal.Admin.{Action, form_text, handle_post}
use remote_llmconnector.Portal.SignIn.{
  AuthHandler, OauthClient, UserInfo, known_user, sign_in, with_code, with_info, with_user,
  read_user, handle_callback, if_given, is_expected, blocked_answer,
}
use remote_llmconnector.Portal.TestSignIn.{handle_login_submit, login_error, fake_id}
use remote_llmconnector.Portal.Follows.{Follows, same-Follows, users-Follows, created-Follows}

module _ (e : Env) (p : Portal) (v : IsValid p.user_store)
    (fresh : lookup (new_key e) p.user_store.index ≡ none) where
  known_user-Follows :
      (name : String) (id : ℕ)
      → Follows p (record p { user_store = (known_user e name id p.user_store).1 })
  unfolding known_user
  known_user-Follows name id = elim (Option-cases (get_by_username p.user_store name)) [
    | inl x ↦ rw (x, known_user) (created-Follows e p name id none v fresh x)
    | inr ((r, u), x) ↦ rw (x, known_user) (users-Follows p (UserSteps.Step.used e r))
  ]

  sign_in-Follows :
      (home : String) (refusal : Answer) (name : String) (id : ℕ) (session : Session)
      → Follows p (sign_in e home refusal name id session p).2
  unfolding sign_in
  sign_in-Follows home refusal name id session =
      elim (Bool-cases ((known_user e name id p.user_store).0.blocked)) [
        | inl x ↦ rw (x, sign_in) (known_user-Follows name id)
        | inr x ↦ rw (x, sign_in) (known_user-Follows name id)
      ]

  with_user-Follows :
      (o : Option (String × ℕ)) (session : Session) → Follows p (with_user e o session p).2
  with_user-Follows none session = same-Follows p
  with_user-Follows (some (name, id)) session =
      sign_in-Follows "/dashboard" blocked_answer name id session

  with_info-Follows :
      (o : Option UserInfo) (session : Session) → Follows p (with_info e o session p).2
  with_info-Follows none session = same-Follows p
  with_info-Follows (some info) session = with_user-Follows (read_user info) session

  with_code-Follows :
      (h : AuthHandler) (client : OauthClient) (o : Option String) (session : Session)
      → Follows p (with_code h client e o session p).2
  with_code-Follows h client none session = same-Follows p
  with_code-Follows h client (some code) session = elim (Bool-cases (truthy code)) [
    | inl x ↦
        rw (x, with_code)
          (with_info-Follows (client.exchange h.token_url h.userinfo_url code) session)
    | inr x ↦ rw (x, with_code) (same-Follows p)
  ]

  pub handle_callback-Follows :
      (h : AuthHandler) (client : OauthClient) (query : Dict String) (session : Session)
      → Follows p (handle_callback h client e query session p).2
  unfolding handle_callback
  handle_callback-Follows h client query session =
      elim (Bool-cases (not (is_expected (lookup "state" query) session.oauth_state))) [
        | inl x ↦ rw (x, handle_callback) (same-Follows p)
        | inr x ↦ elim (Bool-cases (if_given (lookup "error" query))) [
          | inl y ↦ rw (x, y, handle_callback) (same-Follows p)
          | inr y ↦
              rw (x, y, handle_callback)
                (with_code-Follows h client (lookup "code" query)
                  (record session { oauth_state = none }))
        ]
      ]

  pub handle_login_submit-Follows :
      (isalnum : String → Bool) (hash : String → ℕ) (form : Dict String) (session : Session)
      → Follows p (handle_login_submit isalnum hash e form session p).2
  unfolding handle_login_submit
  handle_login_submit-Follows isalnum hash form session =
      let name = form_text "username" form in
      elim (Bool-cases (truthy name)) [
        | inr x ↦ rw (x, handle_login_submit) (same-Follows p)
        | inl x ↦ elim (Bool-cases (isalnum (replace "-" "" (replace "_" "" name)))) [
          | inr y ↦ rw (x, y, handle_login_submit) (same-Follows p)
          | inl y ↦
              rw (x, y, handle_login_submit)
                (sign_in-Follows "/chat" (login_error "Your account has been blocked") name
                  (fake_id hash name) session)
        ]
      ]

-- One step of the broker. `secrets` draws no user key twice.
pub data Step (p : Portal) : Portal → Type 0 where
  posted :
      (int : String → Option ℕ) (e : Env) (up : Bool) (action : Action) (session : Session)
      → lookup (new_key e) p.user_store.index ≡ none
      → Step p (handle_post int e up action session p).2
  called_back :
      (h : AuthHandler) (client : OauthClient) (e : Env) (query : Dict String) (session : Session)
      → lookup (new_key e) p.user_store.index ≡ none
      → Step p (handle_callback h client e query session p).2
  submitted :
      (isalnum : String → Bool) (hash : String → ℕ) (e : Env) (form : Dict String)
      (session : Session)
      → lookup (new_key e) p.user_store.index ≡ none
      → Step p (handle_login_submit isalnum hash e form session p).2
  relayed :
      {server : RelayServer}
      → ServerSteps.Step p.server server
      → Step p (record p { server = server })

pub data Reach (p : Portal) : Portal → Type 0 where
  here : Reach p p
  next : {t u : Portal} → Reach p t → Step t u → Reach p u
