-- ===== src/RelayServer/Steps.antt =====
-- The transitions of the server: what its coroutines do from one wait for the other side to the next,
-- in any order, and what the admin pages do to the connector store meanwhile. The first exchange of
-- a connection is one transition.
use remote_llmconnector.Shared.{Env, ℕ, String, Bool, Option}
use remote_llmconnector.Protocol.{RelayMessage}
use remote_llmconnector.ConnectorStore.Store.{ConnectorStore}
use remote_llmconnector.RelayServer.State.{RelayServer, start, stop}
use remote_llmconnector.RelayServer.Authentication.{FirstFrame}
use remote_llmconnector.RelayServer.Connection.{open_connection, cleanup, handle_message, ping}
use remote_llmconnector.RelayServer.Requests.{
  send_request, await_response, send_request_streaming, notify_approval, notify_revoke,
}

pub data Step (s : RelayServer) : RelayServer → Type 0 where
  started : Step s (start s)
  stopped : Step s (stop s)
  opened :
      (e : Env) (up : Bool) (socket : ℕ) (frame : FirstFrame)
      → Step s (open_connection e up socket frame s).1
  messaged : (i : String) (m : RelayMessage) → Step s (handle_message i m s)
  cleaned : (i : String) → Step s (cleanup i s)
  pinged : (e : Env) (up : Bool) (i : String) → Step s (ping e up i s).1
  requested : (up : Bool) (i : String) (m : RelayMessage) → Step s (send_request up i m s).1
  responded : (r slot : ℕ) (message_id : String) → Step s (await_response r slot message_id s).1
  streamed :
      (up : Bool) (i : String) (m : RelayMessage) → Step s (send_request_streaming up i m s).1
  notified : (up : Bool) (i key : String) → Step s (notify_approval up i key s).1
  revoked :
      (e : Env) (up : Bool) (i : String) (reason : Option String)
      → Step s (notify_revoke e up i reason s).1
  administered : (store : Option ConnectorStore) → Step s (record s { connector_store = store })

pub data Reach (s : RelayServer) : RelayServer → Type 0 where
  here : Reach s s
  next : {t u : RelayServer} → Reach s t → Step t u → Reach s u
