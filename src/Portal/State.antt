-- ===== src/Portal/State.antt =====
-- The portal's state, its sessions and its answers, and the guards of its pages: `_require_admin` of
-- broker/admin.py and the checks that the pages of broker/auth.py and broker/test_auth.py begin
-- with. A session is a cookie that the browser holds, so every request brings its own.
use remote_llmconnector.Shared.{
  ℕ, String, Bool, true, false, not, ◌||◌, ◌==◌, Dict, Option, none, some, List, if◌then◌else◌,
}
use remote_llmconnector.UserStore.Document.{UserRole, User}
use remote_llmconnector.UserStore.Store.{UserStore, get_by_username}
use remote_llmconnector.PrepromptStore.{Preprompt, PrepromptStore}
use remote_llmconnector.ConnectorStore.Document.{Connector}
use remote_llmconnector.Router.{ConnectorRow}
use remote_llmconnector.RelayServer.State.{RelayServer}
use remote_llmconnector.Portal.RequestLogger.{RequestLog, RequestLogger, Filters}

-- `session["user"]`
pub record SessionUser : Type 0 where
  pub username : String
  pub role : String
  pub api_key : String

pub record Session : Type 0 where
  pub user : Option SessionUser
  pub oauth_state : Option String

-- `session.clear()`
abbrev pub cleared : Session
cleared = record { user = none; oauth_state = none }

-- What the handlers share: the stores, the log, and the relay server, whose router and connector
-- store are the portal's.
pub record Portal : Type 0 where
  pub user_store : UserStore
  pub preprompt_store : Option PrepromptStore
  pub request_logger : RequestLogger
  pub server : RelayServer

-- The number of users, connectors, models and admins.
pub record Stats : Type 0 where
  pub user_count : ℕ
  pub connector_count : ℕ
  pub model_count : ℕ
  pub admin_count : ℕ

-- The context of a page's template.
pub data Page : Type 0 where
  admin_dashboard : Stats → List ConnectorRow → List User → Page
  admin_users : List User → Option String → String → Page
  admin_logs : List RequestLog → Filters → List User → List String → ℕ → Page
  admin_settings : List Preprompt → Option Preprompt → Option String → String → Page
  admin_connectors :
      List (Connector × Bool) → List (Connector × Bool) → Option String → String → Page
  login : String → Page
  test_login : Option String → Page
  user_dashboard : User → String → String → List String → Bool → Page
  services : User → List ConnectorRow → Bool → Page
  chat : User → String → List String → Dict String → Bool → Page
  connect : User → String → String → Bool → Page

pub data Answer : Type 0 where
  found : String → Answer
  bad_request : String → Answer
  forbidden : String → Answer
  server_error : String → Answer
  rendered : Page → Answer

-- What a guard says: the user, or the answer and the session that it leaves.
pub data Access : Type 0 where
  granted : User → Access
  refused : Answer → Session → Access

abbrev pub is_admin : UserRole → Bool
is_admin UserRole.admin = true
is_admin UserRole.user = false

abbrev pub to_login : Session → Access
to_login s = refused (found "/auth/login") s

-- The user must still exist and be an admin.
abbrev pub check_admin : Option (ℕ × User) → Access
check_admin none = to_login cleared
check_admin (some (r, u)) =
    if u.blocked || not (is_admin u.role) then to_login cleared else granted u

unfoldable pub admin_access : Session → UserStore → Option SessionUser → Access
unfolding get_by_username
admin_access session store none = to_login session
admin_access session store (some known) =
    if known.role == "admin"
    then check_admin (get_by_username store known.username)
    else refused (forbidden "Admin access required") session

-- `_require_admin`
unfoldable pub require_admin : Session → UserStore → Access
unfolding admin_access
require_admin session store = admin_access session store session.user

abbrev pub check_user : Option (ℕ × User) → Access
check_user none = to_login cleared
check_user (some (r, u)) = if u.blocked then to_login cleared else granted u

unfoldable pub user_access : Session → UserStore → Option SessionUser → Access
unfolding get_by_username
user_access session store none = to_login session
user_access session store (some known) = check_user (get_by_username store known.username)

-- The first lines of the user pages.
unfoldable pub require_user : Session → UserStore → Access
unfolding user_access
require_user session store = user_access session store session.user
