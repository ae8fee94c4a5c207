-- ===== src/Portal/Guards.antt =====
-- Who may change something through the portal: the guard of broker/admin.py.
use remote_llmconnector.Shared.{
  Env, ℕ, String, Bool, true, false, not, ◌||◌, Option, none, some, ◌≡◌, ◌≢◌, refl, arith, ◌==◌,
  eq_iff, Bool-cases, Option-cases, inl, inr, ◌⊎◌,
}
use remote_llmconnector.UserStore.Document.{User}
use remote_llmconnector.UserStore.Store.{UserStore, get_by_username}
use remote_llmconnector.Portal.State.{
  Session, SessionUser, Portal, Answer, found, Access, refused, is_admin, require_admin, cleared,
  admin_access,
}
use remote_llmconnector.Portal.Admin.{Action, handle_post}

-- The session names this user, who is an admin and not blocked, and so does the cookie's copy.
pub record IsAdmin (session : Session) (store : UserStore) : Type 0 where
  pub known : SessionUser
  pub ref : ℕ
  pub user : User
  pub named : session.user ≡ some known
  pub role : known.role ≡ "admin"
  pub present : get_by_username store known.username ≡ some (ref, user)
  pub unblocked : user.blocked ≡ false
  pub admin : is_admin user.role ≡ true

module _ (session : Session) (store : UserStore) where
  abbrev IsRefused : Access → Type 0
  IsRefused a = (answer : Answer) × (left : Session) × (a ≡ refused answer left)

  admin_access-cases :
      (o : Option SessionUser)
      → session.user ≡ o
      → IsRefused (admin_access session store o) ⊎ IsAdmin session store
  unfolding admin_access
  admin_access-cases none x = inl (found "/auth/login", session, refl)
  admin_access-cases (some k) x = elim (Bool-cases (k.role == "admin")) [
    | inr y ↦ inl (Answer.forbidden "Admin access required", session, rw (y, admin_access) refl)
    | inl y ↦ elim (Option-cases (get_by_username store k.username)) [
      | inl z ↦ inl (found "/auth/login", cleared, rw (y, z, admin_access) refl)
      | inr ((r, u), z) ↦ elim (Bool-cases (u.blocked || not (is_admin u.role))) [
        | inl w ↦ inl (found "/auth/login", cleared, rw (y, z, w, admin_access) refl)
        | inr w ↦ inr (record {
          known = k;
          ref = r;
          user = u;
          named = x;
          role = (eq_iff k.role "admin").0 y;
          present = z;
          unblocked = ground arith;
          admin = ground arith;
        })
      ]
    ]
  ]

  require_admin-cases : IsRefused (require_admin session store) ⊎ IsAdmin session store
  unfolding require_admin
  require_admin-cases = admin_access-cases session.user refl

-- A POST to the pages of broker/admin.py, whichever of their actions it asks for, that changes
-- anything of the portal (a user, a preprompt, a connector, or what the relay server sends) comes
-- with the session of a user who is in the store, is not blocked, and is an admin both there and in
-- the session. (The sign-in pages of broker/auth.py are not among them.)
pub handle_post-IsAdmin :
    (int : String → Option ℕ) (e : Env) (up : Bool) (action : Action) (session : Session)
    (p : Portal)
    → (handle_post int e up action session p).2 ≢ p
    → IsAdmin session p.user_store
unfolding handle_post
handle_post-IsAdmin int e up action session p changed =
    elim (require_admin-cases session p.user_store) [
      | inl (answer, left, x) ↦ absurd (changed (rw (x, handle_post) refl))
      | inr a ↦ a
    ]
