-- ===== src/Fail2ban.antt =====
-- The fail2ban socket app, fail2ban-socket-app/src/fail2ban_socket_app: the requests it answers and
-- the commands it runs for them.
pub mod Client
pub mod Requests
