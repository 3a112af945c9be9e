-- ===== src/Queries.antt =====
-- backend/app/query_engine: which requests are let in, and the joins of a semantic plan.
pub mod Requests
pub mod Joins
pub mod Graph
mod Tests
