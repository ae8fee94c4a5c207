-- ===== src/Tests/PortalRuns.antt =====
-- The web portal at concrete inputs.
use Prim.Native.String.{◌++◌ as append}
use remote_llmconnector.Shared.{
  Dict, lookup, insert, write, take, select, length, ℕ, ◌≤◌, String, true, false, Option, none,
  some, List, [], ◌∷◌, ◌++◌, ◌≡◌, ◌≢◌, refl, ap,
}
use remote_llmconnector.Protocol.{create_approved_message}
use remote_llmconnector.UserStore.Document.{UserRole, User}
use remote_llmconnector.UserStore.Store as Users
use remote_llmconnector.UserStore.Store.{UserStore, get_by_username}
use remote_llmconnector.UserStore.Valid.{IsValid, empty-IsValid}
use remote_llmconnector.UserStore.Steps.{users-IsValid}
use remote_llmconnector.PrepromptStore as Preprompts
use remote_llmconnector.PrepromptStore.Defaults as Defaults
use remote_llmconnector.Router
use remote_llmconnector.RelayServer.State
use remote_llmconnector.RelayServer.State.{RelayServer, PendingConnection, sent, closed}
use remote_llmconnector.RelayServer.Authentication.{text, authenticate}
use remote_llmconnector.RelayServer.Access.{identity_of}
use remote_llmconnector.RelayServer.Steps as ServerSteps
use remote_llmconnector.RelayClient.{auth_message}
use remote_llmconnector.RelayClient.Handover.{told}
use remote_llmconnector.Portal.RequestLogger
use remote_llmconnector.Portal.RequestLogger.{RequestLog, Filters, get_logs}
use remote_llmconnector.Portal.RequestLogger.History.{history, log_all, matches, get_logs-log_all}
use remote_llmconnector.Portal.State.{
  Session, Portal, found, refused, cleared, require_admin, require_user,
}
use remote_llmconnector.Portal.Admin.{
  toggle_block, delete_connector, approve_connector, handle_post, handle_toggle_block,
}
use remote_llmconnector.Portal.SignIn
use remote_llmconnector.Portal.SignIn.{
  AuthHandler, OauthClient, UserInfo, handle_callback, known_user, sign_in,
}
use remote_llmconnector.Portal.Guards.{IsAdmin, handle_post-IsAdmin}
use remote_llmconnector.Portal.Blocking.{handle_post-blocked}
use remote_llmconnector.Portal.SignedIn.{IsSignedIn, handle_callback-IsSignedIn}
use remote_llmconnector.Portal.Approval.{handle_post-approve}
use remote_llmconnector.Portal.Broker.{here, next, called_back}
use remote_llmconnector.Portal.Reachable.{HasPreprompts, Reach-server}
use remote_llmconnector.Tests.Data.{env, env_with}
use remote_llmconnector.Tests.UserRuns.{second, bob, bob_found, second-Reach}
use remote_llmconnector.Tests.ClientRuns.{asked, asked_connector, waiting_connector, linked}

-- A connector that waits for its approval.
abbrev waiting_connection : PendingConnection
waiting_connection = record {
  connector_id = "conn-a1";
  websocket = 7;
  models = "m1" ∷ [];
  name = none;
  connected_at = 5;
  auth_correlation_id = "auth-1";
}

abbrev server : RelayServer
server = record (State.init [] [] (some asked) (some Router.init)) {
  pending_connections = ("conn-a1", waiting_connection) ∷ [];
}

abbrev portal : Portal
portal = record {
  user_store = second;
  preprompt_store = none;
  request_logger = RequestLogger.init 100;
  server = server;
}

abbrev ann : User
ann = record {
  gitlab_username = "ann";
  gitlab_id = 1;
  api_key = "sk-a1";
  role = UserRole.admin;
  created_at = 5;
  last_used = none;
  blocked = false;
}

ann_found : get_by_username second "ann" ≡ some (0, ann)
unfolding lookup insert Users.create_user Users.save get_by_username write
ann_found = refl

abbrev ann_session : Session
ann_session = record {
  user = some (record { username = "ann"; role = "admin"; api_key = "sk-a1" });
  oauth_state = none;
}

-- A session that claims more than its user may do.
abbrev bob_session : Session
bob_session = record {
  user = some (record { username = "bob"; role = "admin"; api_key = "sk-b2" });
  oauth_state = none;
}

ann-IsAdmin : IsAdmin ann_session second
ann-IsAdmin = record {
  known = record { username = "ann"; role = "admin"; api_key = "sk-a1" };
  ref = 0;
  user = ann;
  named = refl;
  role = refl;
  present = ann_found;
  unblocked = refl;
  admin = refl;
}

abbrev int : String → Option ℕ
int _ = some 7

abbrev blocking : Portal
blocking = (handle_post int env true (toggle_block "bob") ann_session portal).2

bob_blocked : get_by_username blocking.user_store "bob" ≡ some (1, record bob { blocked = true })
unfolding lookup insert Users.create_user Users.save get_by_username write handle_post
    handle_toggle_block Users.set_blocked require_admin
bob_blocked = refl

bob_changed : blocking ≢ portal
bob_changed p =
    let same = ap (λ q. get_by_username q.user_store "bob") p in cc (same, bob_blocked, bob_found)

handle_post-IsAdmin_example : IsAdmin ann_session second
handle_post-IsAdmin_example =
    handle_post-IsAdmin int env true (toggle_block "bob") ann_session portal bob_changed

handle_post-blocked_example :
    (require_user bob_session blocking.user_store ≡ refused (found "/auth/login") cleared)
    × ((handle_post int (env_with "c3") true (delete_connector "conn-a1") bob_session blocking).2
        ≡ blocking)
handle_post-blocked_example =
    handle_post-blocked int env (env_with "c3") true true (delete_connector "conn-a1") portal
      ann_session bob_session (record { username = "bob"; role = "admin"; api_key = "sk-b2" }) 1 bob
      ann-IsAdmin refl bob_found refl

abbrev handler : AuthHandler
handler = SignIn.init "https://gitlab.example/" none []

-- GitLab knows the code "c" as bob's.
abbrev oauth : OauthClient
oauth = record {
  create_authorization_url = λ url. (append url "?state=s1", "s1");
  exchange = λ _ _ _. some (record { username = some "bob"; id = some 2 });
}

abbrev visiting : Session
visiting = record { user = none; oauth_state = some "s1" }

abbrev query : Dict String
query = ("state", "s1") ∷ ("code", "c") ∷ []

abbrev visited : Session
visited = (handle_callback handler oauth env query visiting portal).1

visited_user : visited.user ≡ some (record { username = "bob"; role = "user"; api_key = "sk-b2" })
unfolding lookup insert Users.create_user Users.save get_by_username write handle_callback sign_in
    known_user SignIn.init
visited_user = refl

visited_changed : visited.user ≢ none
visited_changed p = cc (visited_user, p)

handle_callback-IsSignedIn_example :
    let (answer, after, t) = handle_callback handler oauth env query visiting portal in
    IsSignedIn handler oauth query visiting after t
handle_callback-IsSignedIn_example =
    handle_callback-IsSignedIn handler oauth env query visiting portal
      (users-IsValid true second-Reach) visited_changed

handle_post-approve_example :
    let t = (handle_post int env true (approve_connector "conn-a1") ann_session portal).2.server in
    (t.outbox
      ≡ server.outbox
        ++ ((7, sent (create_approved_message "auth-1" (append "ck-" "a1"))) ∷ (7, closed) ∷ []))
    × (identity_of
          (authenticate env true 9
            (text (some (auth_message env (told env true "auth-1" (append "ck-" "a1") linked))))
            t).0
        ≡ some "conn-a1")
unfolding lookup State.init
handle_post-approve_example =
    handle_post-approve int env env true "conn-a1" ann_session portal asked 0 waiting_connector
      waiting_connection linked 9 ann-IsAdmin refl asked_connector refl refl

-- The portal before anyone has signed in.
abbrev opening : Portal
opening = record portal {
  user_store = Users.empty true;
  preprompt_store = some (Preprompts.empty true);
}

abbrev opened_up : Portal
opened_up = (handle_callback handler oauth env query visiting opening).2

Reach-server_example :
    IsValid opened_up.user_store
    × HasPreprompts opened_up.preprompt_store
    × ServerSteps.Reach server opened_up.server
unfolding lookup
Reach-server_example =
    Reach-server (next here (called_back handler oauth env query visiting refl))
      (empty-IsValid true) (Defaults.preprompts-IsValid true Defaults.Reach.here)

abbrev logged : String → RequestLog
logged status = record {
  timestamp = 5;
  correlation_id = "req-1";
  user = some "ann";
  model = "m1";
  status = status;
  duration_ms = 10;
}

abbrev failures : Filters
failures = record { user = none; model = some ""; status = some "error"; correlation_id = none }

abbrev entries : List RequestLog
entries = logged "success" ∷ logged "error" ∷ []

get_logs-log_all_example :
    (get_logs failures (log_all entries (RequestLogger.init 1))
      ≡ select (matches failures) (take 1 (history entries [])))
    × (length (log_all entries (RequestLogger.init 1)).logs ≤ 1)
get_logs-log_all_example = get_logs-log_all entries 1 failures
