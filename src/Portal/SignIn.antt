-- ===== src/Portal/SignIn.antt =====
-- broker/auth.py, `AuthHandler`: signing in with GitLab. The OAuth client is an argument.
use Prim.Native.String.{◌++◌ as append}
use remote_llmconnector.Shared.{
  Dict, lookup, Env, ℕ, String, Bool, false, not, ◌&&◌, ◌==◌, Option, none, some, List, truthy,
  if◌then◌else◌, eqb, strip_slashes,
}
use remote_llmconnector.UserStore.Document.{User, role_value}
use remote_llmconnector.UserStore.Store.{UserStore, get_by_username, create_user, update_last_used}
use remote_llmconnector.Portal.State.{
  Session, SessionUser, cleared, Portal, Page, Answer, found, bad_request, forbidden, server_error,
  rendered,
}

pub record AuthHandler : Type 0 where
  pub gitlab_url : String
  pub public_url : String
  pub connector_tokens : List String
  pub authorize_url : String
  pub token_url : String
  pub userinfo_url : String

-- `AuthHandler.__init__`, from the settings that it takes.
unfoldable pub init : String → Option String → List String → AuthHandler
unfolding strip_slashes
init gitlab_url public_url connector_tokens =
    let url = strip_slashes gitlab_url in
    record {
      gitlab_url = url;
      public_url = strip_slashes (elim public_url [ none ↦ "" | some u ↦ u ]);
      connector_tokens = connector_tokens;
      authorize_url = append url "/oauth/authorize";
      token_url = append url "/oauth/token";
      userinfo_url = append url "/api/v4/user";
    }

-- What GitLab tells of a user.
pub record UserInfo : Type 0 where
  pub username : Option String
  pub id : Option ℕ

-- The OAuth client: the authorization URL with the state that goes with it; and the exchange of a
-- code for a token and of the token for the user info, where `none` is an exception.
pub record OauthClient : Type 0 where
  pub create_authorization_url : String → String × String
  pub exchange : String → String → String → Option UserInfo

abbrev pub if_given : Option String → Bool
if_given none = false
if_given (some s) = truthy s

-- `handle_index`
unfoldable pub handle_index : String → Session → Answer
handle_index home session = elim session.user [ none ↦ found "/auth/login" | some _ ↦ found home ]

unfoldable pub handle_login : AuthHandler → OauthClient → Session → Answer × Session
handle_login h client session = elim session.user [
  | some _ ↦ (found "/dashboard", session)
  | none ↦
      let (uri, state) = client.create_authorization_url h.authorize_url in
      (rendered (Page.login uri), record session { oauth_state = some state })
]

-- The user with a name, made if there is none.
unfoldable pub known_user : Env → String → ℕ → UserStore → User × UserStore
unfolding get_by_username create_user update_last_used
known_user e name id s = elim (get_by_username s name) [
  | none ↦ create_user e name id none s
  | some (r, u) ↦ (record u { last_used = some e.now }, update_last_used e r s)
]

abbrev pub session_user : User → SessionUser
session_user u = record {
  username = u.gitlab_username;
  role = role_value u.role;
  api_key = u.api_key;
}

-- From the user info on: `home` is where a user who is let in goes, `refusal` the answer to a
-- blocked one.
unfoldable pub sign_in :
    Env → String → Answer → String → ℕ → Session → Portal → Answer × Session × Portal
unfolding known_user role_value
sign_in e home refusal name id session p =
    let (u, store) = known_user e name id p.user_store in
    let after = record p { user_store = store } in
    if u.blocked
    then (refusal, session, after)
    else (found home, record session { user = some (session_user u) }, after)

abbrev pub blocked_answer : Answer
blocked_answer = forbidden "Your account has been blocked"

-- `not gitlab_username or not gitlab_id`
abbrev pub read_user : UserInfo → Option (String × ℕ)
read_user info = elim info.username [
  | none ↦ none
  | some name ↦ elim info.id [
    | none ↦ none
    | some id ↦ if truthy name && not (eqb id 0) then some (name, id) else none
  ]
]

abbrev pub with_user : Env → Option (String × ℕ) → Session → Portal → Answer × Session × Portal
with_user e none session p = (bad_request "Invalid user info from GitLab", session, p)
with_user e (some (name, id)) session p = sign_in e "/dashboard" blocked_answer name id session p

abbrev pub with_info : Env → Option UserInfo → Session → Portal → Answer × Session × Portal
with_info e none session p = (server_error "Authentication failed", session, p)
with_info e (some info) session p = with_user e (read_user info) session p

abbrev pub with_code :
    AuthHandler → OauthClient → Env → Option String → Session → Portal → Answer × Session × Portal
with_code h client e none session p = (bad_request "Missing authorization code", session, p)
with_code h client e (some code) session p =
    if truthy code
    then with_info e (client.exchange h.token_url h.userinfo_url code) session p
    else (bad_request "Missing authorization code", session, p)

-- `state and state == expected_state`
abbrev pub is_expected : Option String → Option String → Bool
is_expected none expected = false
is_expected (some state) none = false
is_expected (some state) (some expected) = truthy state && state == expected

abbrev pub description : Dict String → String
description query = elim (lookup "error_description" query) [
  | none ↦ "Unknown error"
  | some text ↦ text
]

-- The state is taken out of the session whatever comes of the request.
unfoldable pub handle_callback :
    AuthHandler → OauthClient → Env → Dict String → Session → Portal → Answer × Session × Portal
unfolding lookup sign_in
handle_callback h client e query session p =
    let left = record session { oauth_state = none } in
    if not (is_expected (lookup "state" query) session.oauth_state)
    then (bad_request "Invalid OAuth state", left, p)
    else if if_given (lookup "error" query)
    then (bad_request (append "GitLab OAuth error: " (description query)), left, p)
    else with_code h client e (lookup "code" query) left p

-- `handle_logout`
abbrev pub handle_logout : Session → Answer × Session
handle_logout session = (found "/auth/login", cleared)
