-- ===== src/ConnectorService.antt =====
-- connector/main.py and connector/llm_client.py: the requests that a connector serves.
pub mod LlmClient
pub mod Names
pub mod Discovery
pub mod Requests
pub mod Answers
pub mod Sent
pub mod Shutdown
