-- ===== src/Server.antt =====
-- clueapi/server: the clients of the server, its pool of clients, and its start and stop.
pub mod Client
pub mod Pool
pub mod Connections
pub mod Lifecycle
pub mod Receive
pub mod Respond
pub mod Session
pub mod Tests
