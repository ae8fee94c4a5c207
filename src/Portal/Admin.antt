-- ===== src/Portal/Admin.antt =====
-- broker/admin.py, the handlers that change something. Each begins with `_require_admin`; what the
-- portal takes of its surroundings is an argument: the clock and the digits drawn (`Env`), whether
-- a connector's socket takes a message (`up`), and Python's `int` on the text of a GitLab id.
use Prim.Native.String.{◌++◌ as append}
use remote_llmconnector.Shared.{
  Dict, lookup, Env, ℕ, String, Bool, false, not, ◌||◌, ◌==◌, Option, none, some, truthy,
  if◌then◌else◌, strip,
}
use remote_llmconnector.UserStore.Document.{UserRole}
use remote_llmconnector.UserStore.Store.{get_by_username, create_user, set_blocked, set_role}
use remote_llmconnector.PrepromptStore
use remote_llmconnector.PrepromptStore.{PrepromptStore, create_or_update, set_default}
use remote_llmconnector.ConnectorStore.Store
use remote_llmconnector.ConnectorStore.Store.{ConnectorStore, approve, revoke}
use remote_llmconnector.RelayServer.State.{RelayServer}
use remote_llmconnector.RelayServer.Requests.{notify_approval, notify_revoke}
use remote_llmconnector.Portal.State.{
  Session, Portal, Answer, found, granted, refused, require_admin,
}

pub data Action : Type 0 where
  add_user : Dict String → Action
  toggle_block : String → Action
  toggle_role : String → Action
  save_settings : Dict String → Action
  approve_connector : String → Action
  revoke_connector : String → Action
  delete_connector : String → Action

-- `data.get(key, "").strip()`
abbrev pub form_text : String → Dict String → String
form_text k d = elim (lookup k d) [ none ↦ "" | some v ↦ strip v ]

abbrev pub around : String → String → String → String
around before name after = append before (append name after)

abbrev pub to_users : String → String → Answer
to_users name after = found (around "/admin/users?message=User+" name after)

abbrev pub to_settings : String → Answer
to_settings text = found (append "/admin/settings?message=" text)

abbrev pub to_connectors : String → String → Answer
to_connectors name after = found (around "/admin/connectors?message=Connector+" name after)

abbrev pub add_with_id : Env → String → Option ℕ → Portal → Answer × Portal
add_with_id e name none p = (found "/admin/users?message=Invalid+GitLab+ID&type=error", p)
add_with_id e name (some gitlab_id) p = elim (get_by_username p.user_store name) [
  | some _ ↦ (to_users name "+already+exists&type=error", p)
  | none ↦ (
    to_users name "+created&type=success",
    record p { user_store = (create_user e name gitlab_id none p.user_store).1 },
  )
]

unfoldable pub handle_add_user : (String → Option ℕ) → Env → Dict String → Portal → Answer × Portal
unfolding lookup strip get_by_username create_user
handle_add_user int e form p =
    let name = form_text "gitlab_username" form in
    let id_text = form_text "gitlab_id" form in
    if not (truthy name) || not (truthy id_text)
    then (found "/admin/users?message=Username+and+ID+required&type=error", p)
    else add_with_id e name (int id_text) p

unfoldable pub handle_toggle_block : Env → String → Portal → Answer × Portal
unfolding get_by_username set_blocked
handle_toggle_block e name p = elim (get_by_username p.user_store name) [
  | none ↦ (found "/admin/users?message=User+not+found&type=error", p)
  | some (r, u) ↦ (
    to_users name (around "+" (if u.blocked then "unblocked" else "blocked") "&type=success"),
    record p { user_store = (set_blocked e name (not u.blocked) p.user_store).1 },
  )
]

-- An admin becomes a user, and a user an admin.
abbrev pub other_role : UserRole → UserRole
other_role UserRole.admin = UserRole.user
other_role UserRole.user = UserRole.admin

abbrev pub role_action : UserRole → String
role_action UserRole.admin = "promoted to admin"
role_action UserRole.user = "demoted to user"

unfoldable pub handle_toggle_role : Env → String → Portal → Answer × Portal
unfolding get_by_username set_role
handle_toggle_role e name p = elim (get_by_username p.user_store name) [
  | none ↦ (found "/admin/users?message=User+not+found&type=error", p)
  | some (r, u) ↦ (
    to_users name (around "+" (role_action (other_role u.role)) "&type=success"),
    record p { user_store = (set_role e name (other_role u.role) p.user_store).1 },
  )
]

abbrev pub preprompt_missing : Answer
preprompt_missing = to_settings "Preprompt+not+found&type=error"

abbrev pub with_preprompts : PrepromptStore → Portal → Portal
with_preprompts s p = record p { preprompt_store = some s }

-- The answer of `delete` and `set_default`, which report whether they found the preprompt.
abbrev pub changed : String → String → Bool × PrepromptStore → Portal → Answer × Portal
changed name after (done, s) p =
    if done
    then (to_settings (around "Preprompt+'" name after), with_preprompts s p)
    else (preprompt_missing, with_preprompts s p)

abbrev pub is_on : Option String → Bool
is_on none = false
is_on (some v) = v == "on"

abbrev pub save_preprompt : Env → Dict String → PrepromptStore → Portal → Answer × Portal
save_preprompt e form s p =
    let name = form_text "name" form in
    let content = form_text "content" form in
    let is_default = is_on (lookup "is_default" form) in
    if truthy name
    then (
      to_settings (around "Preprompt+'" name "'+saved&type=success"),
      with_preprompts (create_or_update e name content is_default s).1 p,
    )
    else (to_settings "Name+is+required&type=error", p)

abbrev pub settings_action : Env → String → Dict String → PrepromptStore → Portal → Answer × Portal
settings_action e action form s p =
    let name = form_text "name" form in
    if action == "save"
    then save_preprompt e form s p
    else if action == "delete"
    then if truthy name
      then changed name "'+deleted&type=success" (PrepromptStore.delete e name s) p
      else (preprompt_missing, p)
    else if action == "set_default"
    then if truthy name
      then changed name "'+set+as+default&type=success" (set_default e name s) p
      else (preprompt_missing, p)
    else (found "/admin/settings", p)

-- `data.get("action", "save")`
abbrev pub form_action : Dict String → String
form_action form = elim (lookup "action" form) [ none ↦ "save" | some v ↦ v ]

abbrev pub settings_in : Env → Dict String → Option PrepromptStore → Portal → Answer × Portal
settings_in e form none p = (to_settings "Preprompt+storage+not+configured&type=error", p)
settings_in e form (some s) p = settings_action e (form_action form) form s p

unfoldable pub handle_save_settings : Env → Dict String → Portal → Answer × Portal
unfolding lookup strip create_or_update set_default PrepromptStore.delete
handle_save_settings e form p = settings_in e form p.preprompt_store p

abbrev pub not_configured : Answer
not_configured = found "/admin/connectors?message=Connector+store+not+configured&type=error"

abbrev pub with_store : ConnectorStore → RelayServer → RelayServer
with_store store s = record s { connector_store = some store }

-- The key of an approved connector goes out to it, if it is waiting.
abbrev pub approved : Bool → String → Option String × ConnectorStore → Portal → Answer × Portal
approved up name (none, store) p = (
  to_connectors name "+not+found+or+not+pending&type=error",
  record p { server = with_store store p.server },
)
approved up name (some key, store) p =
    if truthy key
    then (
      to_connectors name "+approved&type=success",
      record p { server = (notify_approval up name key (with_store store p.server)).1 },
    )
    else (
      to_connectors name "+not+found+or+not+pending&type=error",
      record p { server = with_store store p.server },
    )

abbrev pub approve_in : Env → Bool → String → Option ConnectorStore → Portal → Answer × Portal
approve_in e up name none p = (not_configured, p)
approve_in e up name (some store) p = approved up name (approve e name store) p

unfoldable pub handle_approve_connector : Env → Bool → String → Portal → Answer × Portal
unfolding approve notify_approval
handle_approve_connector e up name p = approve_in e up name p.server.connector_store p

-- A connector that was revoked or deleted is told so, if it is connected.
abbrev pub withdrawn :
    Env → Bool → String → String → String → Bool × ConnectorStore → Portal → Answer × Portal
withdrawn e up name reason after (done, store) p =
    let server = with_store store p.server in
    if done
    then (
      to_connectors name after,
      record p { server = (notify_revoke e up name (some reason) server).1 },
    )
    else (to_connectors name "+not+found&type=error", record p { server = server })

abbrev pub revoke_in : Env → Bool → String → Option ConnectorStore → Portal → Answer × Portal
revoke_in e up name none p = (not_configured, p)
revoke_in e up name (some store) p =
    withdrawn e up name "API key revoked by admin" "+revoked&type=success" (revoke e name store) p

unfoldable pub handle_revoke_connector : Env → Bool → String → Portal → Answer × Portal
unfolding revoke notify_revoke
handle_revoke_connector e up name p = revoke_in e up name p.server.connector_store p

abbrev pub delete_in : Env → Bool → String → Option ConnectorStore → Portal → Answer × Portal
delete_in e up name none p = (not_configured, p)
delete_in e up name (some store) p =
    withdrawn e up name "Connector deleted by admin" "+deleted&type=success"
      (Store.delete e name store) p

unfoldable pub handle_delete_connector : Env → Bool → String → Portal → Answer × Portal
unfolding Store.delete notify_revoke
handle_delete_connector e up name p = delete_in e up name p.server.connector_store p

abbrev pub perform : (String → Option ℕ) → Env → Bool → Action → Portal → Answer × Portal
perform int e up (add_user form) p = handle_add_user int e form p
perform int e up (toggle_block name) p = handle_toggle_block e name p
perform int e up (toggle_role name) p = handle_toggle_role e name p
perform int e up (save_settings form) p = handle_save_settings e form p
perform int e up (approve_connector name) p = handle_approve_connector e up name p
perform int e up (revoke_connector name) p = handle_revoke_connector e up name p
perform int e up (delete_connector name) p = handle_delete_connector e up name p

-- A request: its answer, the session and the portal after it.
unfoldable pub handle_post :
    (String → Option ℕ) → Env → Bool → Action → Session → Portal → Answer × Session × Portal
unfolding require_admin
handle_post int e up action session p = elim (require_admin session p.user_store) [
  | refused answer left ↦ (answer, left, p)
  | granted u ↦ let (answer, after) = perform int e up action p in (answer, session, after)
]
