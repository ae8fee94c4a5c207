-- ===== src/Portal/AdminPages.antt =====
-- broker/admin.py, the pages: what their templates are given. A query is the dict of the URL's
-- parameters.
use remote_llmconnector.Shared.{
  Dict, lookup, ℕ, String, Bool, true, false, Option, none, some, List, [], ◌∷◌, length, select,
  if◌then◌else◌, leb,
}
use remote_llmconnector.UserStore.Document.{User}
use remote_llmconnector.UserStore.Store
use remote_llmconnector.PrepromptStore
use remote_llmconnector.PrepromptStore.{Preprompt, PrepromptStore, get_default}
use remote_llmconnector.ConnectorStore.Document.{Connector}
use remote_llmconnector.ConnectorStore.Store.{ConnectorStore, get_pending, get_approved}
use remote_llmconnector.Router.{ModelRouter, available_models, get_connector_info}
use remote_llmconnector.RelayServer.State.{RelayServer, is_connector_connected}
use remote_llmconnector.Portal.RequestLogger.{Filters, get_logs}
use remote_llmconnector.Portal.State.{
  Session, Portal, Stats, Page, Answer, found, rendered, is_admin, require_admin,
}
use remote_llmconnector.Portal.Pages.{page_for}

-- `sorted(users, key=key, reverse=True)`: users of one key keep their order.
unfoldable pub insert_newest : (User → ℕ) → User → List User → List User
insert_newest key x [] = x ∷ []
insert_newest key x (y ∷ ys) =
    let rest = insert_newest key x ys in if leb (key y) (key x) then x ∷ y ∷ ys else y ∷ rest

unfoldable pub newest_first : (User → ℕ) → List User → List User
unfolding insert_newest
newest_first key [] = []
newest_first key (x ∷ xs) = insert_newest key x (newest_first key xs)

abbrev pub is_used : User → Bool
is_used u = elim u.last_used [ none ↦ false | some _ ↦ true ]

abbrev pub use_time : User → ℕ
use_time u = elim u.last_used [ none ↦ 0 | some t ↦ t ]

unfoldable pub stats_of : List User → ModelRouter → Stats
unfolding available_models get_connector_info
stats_of users router = record {
  user_count = length users;
  connector_count = length (get_connector_info router);
  model_count = length (available_models router);
  admin_count = length (select (λ u. is_admin u.role) users);
}

unfoldable pub handle_dashboard : ModelRouter → Session → Portal → Answer × Session
unfolding require_admin newest_first stats_of get_connector_info Store.get_all
handle_dashboard router session p =
    let users = Store.get_all p.user_store in
    page_for
      (λ u. rendered (
        Page.admin_dashboard (stats_of users router) (get_connector_info router)
          (newest_first use_time (select is_used users))))
      session (require_admin session p.user_store)

-- `request.query.get("type", "success")`
abbrev pub message_type : Dict String → String
message_type query = elim (lookup "type" query) [ none ↦ "success" | some t ↦ t ]

unfoldable pub handle_users : Dict String → Session → Portal → Answer × Session
unfolding require_admin newest_first lookup Store.get_all
handle_users query session p =
    page_for
      (λ u. rendered (
        Page.admin_users (newest_first (λ x. x.created_at) (Store.get_all p.user_store))
          (lookup "message" query) (message_type query)))
      session (require_admin session p.user_store)

abbrev pub filters_of : Dict String → Filters
filters_of query = record {
  user = lookup "user" query;
  model = lookup "model" query;
  status = lookup "status" query;
  correlation_id = lookup "correlation_id" query;
}

unfoldable pub handle_logs : ModelRouter → Dict String → Session → Portal → Answer × Session
unfolding require_admin lookup get_logs available_models Store.get_all
handle_logs router query session p =
    let filters = filters_of query in
    page_for
      (λ u. rendered (
        Page.admin_logs (get_logs filters p.request_logger) filters (Store.get_all p.user_store)
          (available_models router) p.request_logger.max_logs))
      session (require_admin session p.user_store)

abbrev pub preprompts_of : Option PrepromptStore → List Preprompt
preprompts_of none = []
preprompts_of (some s) = PrepromptStore.get_all s

abbrev pub default_of : Option PrepromptStore → Option Preprompt
default_of none = none
default_of (some s) = get_default s

unfoldable pub handle_settings : Dict String → Session → Portal → Answer × Session
unfolding require_admin lookup get_default PrepromptStore.get_all
handle_settings query session p =
    page_for
      (λ u. rendered (
        Page.admin_settings (preprompts_of p.preprompt_store) (default_of p.preprompt_store)
          (lookup "message" query) (message_type query)))
      session (require_admin session p.user_store)

abbrev pub with_status : RelayServer → List Connector → List (Connector × Bool)
with_status server [] = []
with_status server (c ∷ cs) =
    (c, is_connector_connected server c.connector_id) ∷ with_status server cs

abbrev pub connectors_page : Dict String → RelayServer → Option ConnectorStore → Answer
connectors_page query server none = found "/admin?message=Connector+store+not+configured&type=error"
connectors_page query server (some store) = rendered (
    Page.admin_connectors (with_status server (get_pending store))
      (with_status server (get_approved store)) (lookup "message" query) (message_type query))

unfoldable pub handle_connectors : Dict String → Session → Portal → Answer × Session
unfolding require_admin lookup get_pending get_approved is_connector_connected
handle_connectors query session p =
    page_for (λ u. connectors_page query p.server p.server.connector_store) session
      (require_admin session p.user_store)
