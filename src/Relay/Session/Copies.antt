-- ===== src/Relay/Session/Copies.antt =====
-- The loops of Relay/Session/Steps.antt are those of src/relay.rs, as Relay.antt has them.
use smoltcp_socks.Relay.Session.{Session}
