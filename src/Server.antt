-- ===== src/Server.antt =====
-- core/server: what becomes of a client's query.
pub mod QueryProcessor
