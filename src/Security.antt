-- ===== src/Security.antt =====
-- core/security: defences of the resolver.
pub mod Bailiwick
pub mod ZeroX20
pub mod Rrl
