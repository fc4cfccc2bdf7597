-- ===== src/Equivalence.antt =====
-- The two engines on one dataset: the Cedar decider over the tables that the Postgres writer fills
-- (policies/*.cedar) and the SpiceDB decider over the relationships that the SpiceDB writer sends
-- (schema/spicedb/schema.zed).
pub mod Store
pub mod Rbac
pub mod Acl
