-- ===== src/Policy.antt =====
-- core/policy: who may ask, and what an answer may hold.
pub mod Acl
pub mod BlocklistTrie
pub mod Blocklists
pub mod Rebinding
pub mod CnameCheck
