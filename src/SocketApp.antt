-- ===== src/SocketApp.antt =====
-- The Docker socket app, socket-app/src/socket_app.
pub mod Spool
pub mod Registry
pub mod Server
pub mod Adapter
