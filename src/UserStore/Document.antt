-- ===== src/UserStore/Document.antt =====
-- broker/users.py, `UserRole` and `User`: the object and its YAML document. A document whose fields
-- have other types than the class declares is refused.
use remote_llmconnector.Shared.{
  Dict, lookup, Value, str, number, flag, as_text_or, as_flag_or, required_text, ◌>>=◌, ℕ, String,
  Bool, true, false, Option, none, some, [], ◌∷◌, if◌then◌else◌, ◌==◌, ◌≡◌, refl, truthy,
}
use remote_llmconnector.ConnectorStore.Document.{optional_time, read_time, read_time-optional_time}

pub data UserRole : Type 0 where
  admin user : UserRole

pub record User : Type 0 where
  pub gitlab_username : String
  pub gitlab_id : ℕ
  pub api_key : String
  pub role : UserRole
  pub created_at : ℕ
  pub last_used : Option ℕ
  pub blocked : Bool

-- `UserRole.value`, and the constructor from a value, which may raise.
unfoldable pub role_value : UserRole → String
role_value admin = "admin"
role_value user = "user"

unfoldable pub role_of_value : String → Option UserRole
role_of_value s = if s == "admin" then some admin else if s == "user" then some user else none

abbrev pub required_number : String → Dict Value → Option ℕ
required_number k d = elim (lookup k d) [ some (number n) ↦ some n | _ ↦ none ]

unfoldable pub to_dict : (ℕ → String) → User → Dict Value
unfolding role_value
to_dict isoformat u =
    ("gitlab_username", str u.gitlab_username)
    ∷ ("gitlab_id", number u.gitlab_id)
    ∷ ("api_key", str u.api_key)
    ∷ ("role", str (role_value u.role))
    ∷ ("created_at", str (isoformat u.created_at))
    ∷ ("last_used", optional_time isoformat u.last_used)
    ∷ ("blocked", flag u.blocked)
    ∷ []

unfoldable pub from_dict : (String → Option ℕ) → Dict Value → Option User
unfolding role_of_value
from_dict fromisoformat d = do
  gitlab_username ← required_text "gitlab_username" d
  gitlab_id ← required_number "gitlab_id" d
  api_key ← required_text "api_key" d
  role_text ← as_text_or (lookup "role" d) "user"
  role ← role_of_value role_text
  created_text ← required_text "created_at" d
  created_at ← fromisoformat created_text
  last_used ← read_time fromisoformat (lookup "last_used" d)
  blocked ← as_flag_or (lookup "blocked" d) false
  some (record {
    gitlab_username = gitlab_username;
    gitlab_id = gitlab_id;
    api_key = api_key;
    role = role;
    created_at = created_at;
    last_used = last_used;
    blocked = blocked;
  })

role_of_value-role_value : (r : UserRole) → role_of_value (role_value r) ≡ some r
unfolding role_of_value role_value
role_of_value-role_value admin = refl
role_of_value-role_value user = refl

module _ (isoformat : ℕ → String) (fromisoformat : String → Option ℕ)
    (read_back : (t : ℕ) → fromisoformat (isoformat t) ≡ some t)
    (is_text : (t : ℕ) → truthy (isoformat t) ≡ true) where
  -- Where `datetime.fromisoformat` reads what `isoformat` writes, the document of a user gives the
  -- user back, whatever the user's fields hold.
  pub from_dict-to_dict_user : (u : User) → from_dict fromisoformat (to_dict isoformat u) ≡ some u
  unfolding from_dict to_dict lookup
  from_dict-to_dict_user u = rw (role_of_value-role_value u.role) (
      rw (read_back u.created_at)
        (rw (read_time-optional_time isoformat fromisoformat read_back is_text u.last_used) refl))
