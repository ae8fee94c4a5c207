-- ===== src/UserStore/Store.antt =====
-- broker/users.py, `UserStore`. The two dicts hold references to shared user objects.
use Prim.Native.String.{◌++◌ as append}
use remote_llmconnector.Shared.{
  Dict, lookup, insert, remove, has, values, Heap, write, deref, objects, Env, Value, ℕ, ◌+◌,
  String, Bool, true, false, Option, none, some, List, [], ◌∷◌, map, if◌then◌else◌, ◌&&◌,
}
use remote_llmconnector.UserStore.Document.{UserRole, User, to_dict, from_dict}

pub record UserStore : Type 0 where
  pub users : Dict ℕ
  pub index : Dict ℕ
  pub cells : Heap User
  pub next : ℕ
  pub has_file : Bool
  pub disk : List (Dict Value)

abbrev pub empty : Bool → UserStore
empty has_file = record {
  users = [];
  index = [];
  cells = λ _. none;
  next = 0;
  has_file = has_file;
  disk = [];
}

-- A new object, entered under its name and its key.
abbrev pub add_user : User → UserStore → UserStore
add_user u s = record s {
  users = insert u.gitlab_username s.next s.users;
  index = insert u.api_key s.next s.index;
  cells = write s.next u s.cells;
  next = s.next + 1;
}

-- The loop of `_load`; a document that raises ends it, and what was loaded stays.
unfoldable pub load_all : (String → Option ℕ) → List (Dict Value) → UserStore → UserStore
unfolding from_dict
load_all fromisoformat [] s = s
load_all fromisoformat (d ∷ ds) s = elim (from_dict fromisoformat d) [
  | none ↦ s
  | some u ↦ load_all fromisoformat ds (add_user u s)
]

-- `_load`, with `none` where the file is absent, unreadable, or has no `users` entry.
unfoldable pub load : (String → Option ℕ) → Bool → Option (List (Dict Value)) → UserStore
unfolding load_all
load fromisoformat has_file none = empty has_file
load fromisoformat has_file (some docs) =
    load_all fromisoformat docs (record (empty has_file) { disk = docs })

unfoldable pub get_all : UserStore → List User
get_all s = objects s.cells (values s.users)

-- `_save`; a file that cannot be written keeps its contents.
unfoldable pub save : Env → UserStore → UserStore
unfolding get_all to_dict
save e s =
    if s.has_file && e.writable
    then record s { disk = map (to_dict e.isoformat) (get_all s) }
    else s

unfoldable pub get_by_username : UserStore → String → Option (ℕ × User)
get_by_username s gitlab_username = deref s.cells (lookup gitlab_username s.users)

unfoldable pub get_by_api_key : UserStore → String → Option (ℕ × User)
get_by_api_key s api_key = deref s.cells (lookup api_key s.index)

-- The role of a new user: the first one is the admin.
abbrev pub default_role : Dict ℕ → UserRole
default_role [] = UserRole.admin
default_role (x ∷ xs) = UserRole.user

abbrev pub chosen_role : Option UserRole → Dict ℕ → UserRole
chosen_role none users = default_role users
chosen_role (some role) users = role

abbrev pub new_key : Env → String
new_key e = append "sk-" e.hex

abbrev pub new_user : Env → String → ℕ → UserRole → User
new_user e gitlab_username gitlab_id role = record {
  gitlab_username = gitlab_username;
  gitlab_id = gitlab_id;
  api_key = new_key e;
  role = role;
  created_at = e.now;
  last_used = none;
  blocked = false;
}

unfoldable pub create_user : Env → String → ℕ → Option UserRole → UserStore → User × UserStore
unfolding save
create_user e gitlab_username gitlab_id role s =
    let u = new_user e gitlab_username gitlab_id (chosen_role role s.users) in
    (u, save e (add_user u s))

-- Setting one attribute of the object at a reference.
abbrev pub modify_at : (User → User) → ℕ → Option User → Heap User → Heap User
modify_at f r none cells = cells
modify_at f r (some u) cells = write r (f u) cells

unfoldable pub update_last_used : Env → ℕ → UserStore → UserStore
unfolding save
update_last_used e r s = save e (record s {
  cells = modify_at (λ u. record u { last_used = some e.now }) r (s.cells r) s.cells;
})

unfoldable pub set_blocked : Env → String → Bool → UserStore → Bool × UserStore
unfolding save get_by_username
set_blocked e gitlab_username blocked s = elim (get_by_username s gitlab_username) [
  | none ↦ (false, s)
  | some (r, u) ↦
      (true, save e (record s { cells = write r (record u { blocked = blocked }) s.cells }))
]

unfoldable pub set_role : Env → String → UserRole → UserStore → Bool × UserStore
unfolding save get_by_username
set_role e gitlab_username role s = elim (get_by_username s gitlab_username) [
  | none ↦ (false, s)
  | some (r, u) ↦ (true, save e (record s { cells = write r (record u { role = role }) s.cells }))
]

-- `del self._api_key_index[k]` raises KeyError where the key is absent.
pub data Result {ℓ} (A : Type ℓ) : Type ℓ where
  returned : A → Result A
  key_error : Result A

unfoldable pub regenerate_api_key : Env → String → UserStore → Result (Option String) × UserStore
unfolding save get_by_username
regenerate_api_key e gitlab_username s = elim (get_by_username s gitlab_username) [
  | none ↦ (returned none, s)
  | some (r, u) ↦
      if has u.api_key s.index
      then (
        returned (some (new_key e)),
        save e (record s {
          index = insert (new_key e) r (remove u.api_key s.index);
          cells = write r (record u { api_key = new_key e }) s.cells;
        }),
      )
      else (key_error, s)
]

-- The name goes first: where the key is absent, the user is gone and the file is not written.
unfoldable pub delete_user : Env → String → UserStore → Result Bool × UserStore
unfolding save get_by_username
delete_user e gitlab_username s = elim (get_by_username s gitlab_username) [
  | none ↦ (returned false, s)
  | some (r, u) ↦
      let s' = record s { users = remove gitlab_username s.users } in
      if has u.api_key s.index
      then (returned true, save e (record s' { index = remove u.api_key s.index }))
      else (key_error, s')
]

unfoldable pub validate_api_key : UserStore → String → Option (ℕ × User)
unfolding get_by_api_key
validate_api_key s api_key = elim (get_by_api_key s api_key) [
  | none ↦ none
  | some (r, u) ↦ if u.blocked then none else some (r, u)
]
