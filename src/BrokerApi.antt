-- ===== src/BrokerApi.antt =====
-- broker/api.py: the OpenAI-compatible HTTP API.
pub mod Responses
pub mod UserKeys
pub mod Chat
pub mod Streaming
pub mod Chunks
pub mod Forwarding
