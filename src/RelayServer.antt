-- ===== src/RelayServer.antt =====
-- broker/relay_server.py: the WebSocket server that connectors connect to.
pub mod State
pub mod Authentication
pub mod Connection
pub mod Requests
pub mod Steps
pub mod Agreement
pub mod Frame
pub mod Routed
pub mod Sending
pub mod Cleanup
pub mod Access
pub mod Futures
pub mod Settled
pub mod Queues
pub mod Streams
