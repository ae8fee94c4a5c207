-- ===== src/Portal/TestSignIn.antt =====
-- broker/test_auth.py, `TestAuthHandler`: signing in by name alone. Python's `isalnum` and the
-- absolute value of its `hash`, which differs from run to run, are arguments.
use Prim.Native.Nat.{◌%◌}
use remote_llmconnector.Shared.{
  Dict, lookup, Env, ℕ, String, Bool, not, none, some, truthy, if◌then◌else◌, replace, strip,
}
use remote_llmconnector.Portal.State.{Session, Portal, Page, Answer, found, rendered}
use remote_llmconnector.Portal.SignIn.{sign_in}
use remote_llmconnector.Portal.Admin.{form_text}

abbrev pub login_error : String → Answer
login_error text = rendered (Page.test_login (some text))

unfoldable pub handle_test_login : Session → Answer
handle_test_login session = elim session.user [
  | some _ ↦ found "/chat"
  | none ↦ rendered (Page.test_login none)
]

abbrev pub fake_id : (String → ℕ) → String → ℕ
fake_id hash name = hash name % 1000000

unfoldable pub handle_login_submit :
    (String → Bool)
    → (String → ℕ)
    → Env
    → Dict String
    → Session
    → Portal
    → Answer × Session × Portal
unfolding lookup strip replace sign_in
handle_login_submit isalnum hash e form session p =
    let name = form_text "username" form in
    if not (truthy name)
    then (login_error "Username is required", session, p)
    else if not (isalnum (replace "-" "" (replace "_" "" name)))
    then (login_error "Invalid username format", session, p)
    else sign_in e "/chat" (login_error "Your account has been blocked") name (fake_id hash name)
        session p
