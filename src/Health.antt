-- ===== src/Health.antt =====
-- The health endpoints: broker/health.py and connector/health.py. Times are in tenths of a second.
use remote_llmconnector.Shared.{
  ℕ, ◌-◌, String, Bool, true, false, ◌&&◌, Option, none, some, List, [], length, if◌then◌else◌, ltb,
  Value,
}
use remote_llmconnector.Router.{ModelRouter, available_models}
use remote_llmconnector.RelayServer.State.{RelayServer, connector_count}
use remote_llmconnector.RelayClient.{RelayClient, ConnectionState}
use remote_llmconnector.ConnectorService.LlmClient.{check_health}
pub mod Ready

-- The documents of the broker.
pub record BrokerHealth : Type 0 where
  pub status : String
  pub connectors_connected : ℕ
  pub models : List String
  pub model_count : ℕ
  pub uptime : ℕ

pub record BrokerReady : Type 0 where
  pub ready : Bool
  pub connectors_connected : ℕ

abbrev pub models_of : Option ModelRouter → List String
models_of none = []
models_of (some r) = available_models r

-- `_handle_health` of broker/health.py; the status of the response is 200.
unfoldable pub broker_health : ℕ → ℕ → RelayServer → Option ModelRouter → ℕ × BrokerHealth
unfolding available_models connector_count
broker_health now start_time s router =
    let models = models_of router in
    (
      200,
      record {
        status = "healthy";
        connectors_connected = connector_count s;
        models = models;
        model_count = length models;
        uptime = now - start_time;
      },
    )

abbrev pub status_for : Bool → ℕ
status_for ready = if ready then 200 else 503

-- `_handle_ready` of broker/health.py
unfoldable pub broker_ready : RelayServer → ℕ × BrokerReady
unfolding connector_count
broker_ready s =
    let n = connector_count s in
    let ready = ltb 0 n in (status_for ready, record { ready = ready; connectors_connected = n })

-- The documents of the connector.
pub record ConnectorHealth : Type 0 where
  pub status : String
  pub relay_connected : Bool
  pub relay_state : ConnectionState
  pub relay_session_id : Option Value
  pub llm_available : Bool
  pub models : List String
  pub uptime : ℕ

pub record ConnectorReady : Type 0 where
  pub ready : Bool
  pub relay_connected : Bool
  pub llm_available : Bool

abbrev pub is_connected : ConnectionState → Bool
is_connected ConnectionState.connected = true
is_connected _ = false

-- `_handle_health` of connector/health.py; the status of the LLM server's answer, if there is one,
-- is an argument.
unfoldable pub connector_health : ℕ → ℕ → RelayClient → Option ℕ → ℕ × ConnectorHealth
unfolding check_health
connector_health now start_time c llm_status =
    let up = is_connected c.state in
    (
      status_for up,
      record {
        status = if up then "healthy" else "unhealthy";
        relay_connected = up;
        relay_state = c.state;
        relay_session_id = c.session_id;
        llm_available = check_health llm_status;
        models = c.models;
        uptime = now - start_time;
      },
    )

-- `_handle_ready` of connector/health.py
unfoldable pub connector_ready : RelayClient → Option ℕ → ℕ × ConnectorReady
unfolding check_health
connector_ready c llm_status =
    let up = is_connected c.state in
    let llm_available = check_health llm_status in
    let ready = up && llm_available in
    (
      status_for ready,
      record { ready = ready; relay_connected = up; llm_available = llm_available },
    )
