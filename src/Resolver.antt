-- ===== src/Resolver.antt =====
-- core/resolver: asking upstream servers.
pub mod ServerSelection
pub mod Upstream
pub mod RecursiveResolver
