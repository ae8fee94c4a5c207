-- ===== src/Health/Ready.antt =====
-- What the readiness of broker/health.py means for the API.
use remote_llmconnector.ConnectorStore.Store.{ConnectorStore}
use remote_llmconnector.Router
use remote_llmconnector.RelayServer.State
use remote_llmconnector.RelayServer.State.{RelayServer}
