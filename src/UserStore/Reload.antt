-- ===== src/UserStore/Reload.antt =====
-- The file of broker/users.py: what `_load` makes of what `_save` wrote.
use mathlib.Core.List.{append_assoc, append-nil}
use remote_llmconnector.Shared.{
  lookup, values, ℕ, String, true, Option, none, some, List, [], ◌∷◌, ◌++◌, map, ◌≡◌, ap, sym, ◌∙◌,
  subst, insert_fresh, IsUnique, IsApart, append-IsApart, keyed, AllBelow, values-AllBelow,
  objects-insert, truthy,
}
use remote_llmconnector.UserStore.Document.{User, to_dict, from_dict-to_dict_user}
use remote_llmconnector.UserStore.Store.{UserStore, add_user, load_all, get_all}

get_all-add_user :
    (u : User) (s : UserStore)
    → lookup u.gitlab_username s.users ≡ none
    → AllBelow s.next (values s.users)
    → get_all (add_user u s) ≡ get_all s ++ (u ∷ [])
unfolding get_all
get_all-add_user u s h below = objects-insert u.gitlab_username s.next u s.cells s.users h below

module _ (isoformat : ℕ → String) (fromisoformat : String → Option ℕ)
    (read_back : (t : ℕ) → fromisoformat (isoformat t) ≡ some t)
    (is_text : (t : ℕ) → truthy (isoformat t) ≡ true) where
  pub get_all-load_all :
      (us : List User) (s : UserStore)
      → IsUnique (keyed (λ u. u.gitlab_username) us)
      → IsApart (keyed (λ u. u.gitlab_username) us) s.users
      → AllBelow s.next (values s.users)
      → get_all (load_all fromisoformat (map (to_dict isoformat) us) s) ≡ get_all s ++ us
  unfolding load_all
  get_all-load_all [] s n a below = sym (append-nil (get_all s))
  get_all-load_all (u ∷ us) s n a below =
      let name = u.gitlab_username in
      let rest = keyed (λ w. w.gitlab_username) us in
      rw (from_dict-to_dict_user isoformat fromisoformat read_back is_text u, load_all)
        (get_all-load_all us (add_user u s) n.1
            (subst (λ d. IsApart rest d) (sym (insert_fresh name s.next s.users (a.0)))
              (append-IsApart name s.next rest s.users (n.0) a.1))
            (values-AllBelow name s.next s.users (a.0) below)
          ∙ ap (λ l. l ++ us) (get_all-add_user u s (a.0) below)
          ∙ append_assoc (get_all s) (u ∷ []) us)
