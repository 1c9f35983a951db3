-- ===== src/Net.antt =====
-- Addresses of callers: apps/web/src/server/http/client-ip.ts.
pub mod Address
pub mod ClientIp
