-- ===== src/Net.antt =====
-- core/net: the event loop.
pub mod EventLoop
