-- ===== src/Stomp.antt =====
-- The STOMP protocol of stomp/stomp_proto.c and stomp/stomp_subr.c.
pub mod Text
pub mod Parse
pub mod Header
pub mod Length
mod Tests
