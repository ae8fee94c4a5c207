-- ===== src/Portal/Pages.antt =====
-- broker/auth.py and broker/test_auth.py, the pages of a signed-in user. Each begins with the same
-- check; a page is the context of its template. Test mode differs in one flag of the context.
use Prim.Native.String.{◌++◌ as append}
use remote_llmconnector.Shared.{String, true, List, [], ◌∷◌, if◌then◌else◌, replace}
use remote_llmconnector.UserStore.Document.{User}
use remote_llmconnector.UserStore.Store.{UserStore}
use remote_llmconnector.Router.{
  ModelRouter, available_models, get_connector_info, get_all_models_with_connectors,
}
use remote_llmconnector.Portal.State.{
  Session, Access, granted, refused, Page, Answer, forbidden, rendered, is_admin, require_user,
}

-- A page for the user whom the guard lets in.
abbrev pub page_for : (User → Answer) → Session → Access → Answer × Session
page_for page session (refused answer left) = (answer, left)
page_for page session (granted u) = (page u, session)

unfoldable pub handle_dashboard : String → ModelRouter → Session → UserStore → Answer × Session
unfolding require_user available_models
handle_dashboard public_url router session store =
    page_for
      (λ u. rendered (
        Page.user_dashboard u u.api_key (append public_url "/v1") (available_models router)
          (is_admin u.role)))
      session (require_user session store)

unfoldable pub handle_services : ModelRouter → Session → UserStore → Answer × Session
unfolding require_user get_connector_info
handle_services router session store =
    page_for (λ u. rendered (Page.services u (get_connector_info router) (is_admin u.role))) session
      (require_user session store)

unfoldable pub handle_chat : ModelRouter → Session → UserStore → Answer × Session
unfolding require_user available_models get_all_models_with_connectors
handle_chat router session store =
    page_for
      (λ u. rendered (
        Page.chat u u.api_key (available_models router) (get_all_models_with_connectors router)
          (is_admin u.role)))
      session (require_user session store)

-- The public URL as a WebSocket URL.
unfoldable pub websocket_url : String → String
unfolding replace
websocket_url public_url =
    append (replace "http://" "ws://" (replace "https://" "wss://" public_url)) "/ws"

abbrev pub first_token : List String → String
first_token [] = "request-token-from-admin"
first_token (token ∷ tokens) = token

-- Only an admin sees a connector token.
unfoldable pub handle_connect : String → List String → Session → UserStore → Answer × Session
unfolding require_user websocket_url
handle_connect public_url connector_tokens session store =
    page_for
      (λ u.
        if is_admin u.role
        then rendered
            (Page.connect u (websocket_url public_url) (first_token connector_tokens) true)
        else forbidden "Admin access required")
      session (require_user session store)
