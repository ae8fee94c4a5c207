-- ===== src/Portal/Callback.antt =====
-- Whom the OAuth callback of broker/auth.py signs in, and what the session is good for.
use remote_llmconnector.Shared.{
  lookup, write, Env, ℕ, String, false, none, some, ◌≡◌, refl, ◌∙◌, ap, ◌==◌, eq_iff, Bool-cases,
  Option-cases, inl, inr, if◌then◌else◌, arith, lookup-insert,
}
use remote_llmconnector.UserStore.Document.{User, UserRole, role_value}
use remote_llmconnector.UserStore.Store.{
  UserStore, get_by_username, create_user, update_last_used, add_user, modify_at,
}
use remote_llmconnector.UserStore.Valid.{IsValid, get_by_username-parts}
use remote_llmconnector.Portal.State.{
  Session, forbidden, granted, refused, is_admin, require_admin, require_user, admin_access,
  user_access, Access,
}
use remote_llmconnector.Portal.SignIn.{known_user, session_user}
use remote_llmconnector.Portal.Blocking.{save-get_by_username}

added_user :
    (u : User) (s : UserStore) → get_by_username (add_user u s) u.gitlab_username ≡ some (s.next, u)
unfolding get_by_username write
added_user u s =
    let name = u.gitlab_username in
    rw (lookup-insert name name s.next s.users, (eq_iff name name).1 refl) (ground arith)

used_user :
    (e : Env) (name : String) (r : ℕ) (u : User) (s : UserStore)
    → lookup name s.users ≡ some r
    → s.cells r ≡ some u
    → get_by_username (update_last_used e r s) name ≡ some (r, record u { last_used = some e.now })
unfolding get_by_username update_last_used write
used_user e name r u s entry held =
    save-get_by_username e
      (record s {
        cells = modify_at (λ w. record w { last_used = some e.now }) r (s.cells r) s.cells;
      })
      name
    ∙ ground arith

-- The store has the user afterwards, under the name.
pub known_user_present :
    (e : Env) (name : String) (id : ℕ) (s : UserStore)
    → IsValid s
    → let (u, t) = known_user e name id s in
      (u.gitlab_username ≡ name) × (r : ℕ) × (get_by_username t name ≡ some (r, u))
unfolding known_user create_user
known_user_present e name id s v = elim (Option-cases (get_by_username s name)) [
  | inl x ↦
      let u = (create_user e name id none s).0 in
      rw (x, known_user) (refl, s.next, save-get_by_username e (add_user u s) name ∙ added_user u s)
  | inr ((r, u), x) ↦
      let (entry, held) = get_by_username-parts s name r u x in
      rw (x, known_user) ((v.user_own name r u entry held).0, r, used_user e name r u s entry held)
]

-- A session that names a user of the store opens the pages that the user may see.
role_value-is_admin : (role : UserRole) → (role_value role == "admin") ≡ is_admin role
unfolding role_value
role_value-is_admin UserRole.admin = refl
role_value-is_admin UserRole.user = refl

abbrev pub opened_for : User → Session → Access
opened_for u session =
    if is_admin u.role then granted u else refused (forbidden "Admin access required") session

pub session_user-access :
    (session : Session) (store : UserStore) (r : ℕ) (u : User)
    → session.user ≡ some (session_user u)
    → get_by_username store u.gitlab_username ≡ some (r, u)
    → u.blocked ≡ false
    → (require_user session store ≡ granted u)
      × (require_admin session store ≡ opened_for u session)
unfolding require_user user_access require_admin admin_access
session_user-access session store r u named present free = (
  ap (user_access session store) named ∙ rw (present, free, user_access) refl,
  ap (admin_access session store) named ∙ elim (Bool-cases (is_admin u.role)) [
    | inl x ↦ rw (role_value-is_admin u.role, x, present, free, x, admin_access) refl
    | inr x ↦ rw (role_value-is_admin u.role, x, admin_access) refl
  ],
)
