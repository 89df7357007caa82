-- ===== src/Server/Relay/Delivery.antt =====
-- apps/server/src/main.ts: to whom the relay talks.
use tbridge.Base.{nat_eq, string_eq}
use tbridge.Server.Relay.{Relay}
