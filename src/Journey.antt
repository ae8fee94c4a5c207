-- ===== src/Journey.antt =====
-- A chat request on its whole way: the HTTP API (broker/api.py), the relay (broker/relay_server.py),
-- the connector (connector/main.py, connector/llm_client.py), the LLM server, and back.
pub mod Headers
pub mod Outward
pub mod Back
