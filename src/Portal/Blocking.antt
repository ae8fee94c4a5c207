-- ===== src/Portal/Blocking.antt =====
-- What blocking a user through broker/admin.py does to the sessions that the user still holds.
use remote_llmconnector.Shared.{
  write, Env, ℕ, String, Bool, true, false, Option, some, ◌≡◌, refl, ◌∙◌, ap, arith, ◌==◌, eq_iff,
  Bool-cases, inl, inr,
}
use remote_llmconnector.UserStore.Document.{User}
use remote_llmconnector.UserStore.Store.{UserStore, get_by_username, set_blocked, save}
use remote_llmconnector.UserStore.Valid.{get_by_username-parts}
use remote_llmconnector.Portal.State.{
  Session, SessionUser, Portal, Answer, found, granted, refused, require_admin, cleared,
  admin_access, user_access, require_user, forbidden,
}
use remote_llmconnector.Portal.Admin.{
  Action, toggle_block, perform, handle_post, handle_toggle_block,
}
use remote_llmconnector.Portal.Guards.{IsAdmin}

-- An admin's session passes the guard.
pub require_admin-granted :
    (session : Session) (store : UserStore) (a : IsAdmin session store)
    → require_admin session store ≡ granted a.user
unfolding require_admin admin_access
require_admin-granted session store a =
    let role : (a.known.role == "admin") ≡ true = (eq_iff a.known.role "admin").1 a.role in
    ap (admin_access session store) a.named
    ∙ rw (role, a.present, a.unblocked, a.admin, admin_access) refl

pub save-get_by_username :
    (e : Env) (s : UserStore) (name : String)
    → get_by_username (save e s) name ≡ get_by_username s name
unfolding save get_by_username
save-get_by_username e s name = ground arith

get_by_username-set_blocked :
    (e : Env) (s : UserStore) (name : String) (r : ℕ) (u : User) (b : Bool)
    → get_by_username s name ≡ some (r, u)
    → get_by_username (set_blocked e name b s).1 name ≡ some (r, record u { blocked = b })
unfolding set_blocked get_by_username write
get_by_username-set_blocked e s name r u b h =
    let (entry, held) = get_by_username-parts s name r u h in
    rw (h, set_blocked)
      (save-get_by_username e (record s { cells = write r (record u { blocked = b }) s.cells }) name
        ∙ ground arith)

module _ (store : UserStore) (session : Session) (k : SessionUser) (r : ℕ) (u : User)
    (named : session.user ≡ some k) (present : get_by_username store k.username ≡ some (r, u))
    (blocked : u.blocked ≡ true) where
  require_user-blocked : require_user session store ≡ refused (found "/auth/login") cleared
  unfolding require_user user_access
  require_user-blocked =
      ap (user_access session store) named ∙ rw (present, blocked, user_access) refl

  require_admin-blocked :
      (answer : Answer) × (left : Session) × (require_admin session store ≡ refused answer left)
  unfolding require_admin admin_access
  require_admin-blocked = elim (Bool-cases (k.role == "admin")) [
    | inl x ↦ (
      found "/auth/login",
      cleared,
      ap (admin_access session store) named ∙ rw (x, present, blocked, admin_access) refl,
    )
    | inr x ↦ (
      forbidden "Admin access required",
      session,
      ap (admin_access session store) named ∙ rw (x, admin_access) refl,
    )
  ]

-- What an admin asks for is done.
pub handle_post-perform :
    (int : String → Option ℕ) (e : Env) (up : Bool) (action : Action) (session : Session)
    (p : Portal)
    → IsAdmin session p.user_store
    → ((handle_post int e up action session p).0 ≡ (perform int e up action p).0)
      × ((handle_post int e up action session p).2 ≡ (perform int e up action p).1)
unfolding handle_post
handle_post-perform int e up action session p a =
    rw (require_admin-granted session p.user_store a, handle_post) (refl, refl)

toggled_block :
    (e : Env) (p : Portal) (name : String) (r : ℕ) (u : User)
    → get_by_username p.user_store name ≡ some (r, u)
    → u.blocked ≡ false
    → (handle_toggle_block e name p).1
      ≡ record p { user_store = (set_blocked e name true p.user_store).1 }
unfolding handle_toggle_block
toggled_block e p name r u h free = rw (h, handle_toggle_block, free) refl

-- Once an admin has blocked a user, the sessions that the user still holds are worth nothing,
-- whatever role they claim: every user page sends the browser to the login and clears the session,
-- and no POST to the pages of broker/admin.py that comes with such a session changes the portal.
pub handle_post-blocked :
    (int : String → Option ℕ) (e e' : Env) (up up' : Bool) (action : Action) (p : Portal)
    (admin_session session : Session) (k : SessionUser) (r : ℕ) (u : User)
    → IsAdmin admin_session p.user_store
    → session.user ≡ some k
    → get_by_username p.user_store k.username ≡ some (r, u)
    → u.blocked ≡ false
    → let p' = (handle_post int e up (toggle_block k.username) admin_session p).2 in
      (require_user session p'.user_store ≡ refused (found "/auth/login") cleared)
      × ((handle_post int e' up' action session p').2 ≡ p')
unfolding handle_post
handle_post-blocked int e e' up up' action p admin_session session k r u a named present free =
    let store = (set_blocked e k.username true p.user_store).1 in
    let w = record u { blocked = true } in
    let there : get_by_username store k.username ≡ some (r, w) =
      get_by_username-set_blocked e p.user_store k.username r u true present in
    let (answer, left, denied) = require_admin-blocked store session k r w named there refl in
    rw
      ((handle_post-perform int e up (toggle_block k.username) admin_session p a).1
        ∙ toggled_block e p k.username r u present free)
      (require_user-blocked store session k r w named there refl, rw (denied, handle_post) refl)
