-- ===== src/Graph.antt =====
-- The distributed graph library (libs/src/graph).
pub mod Distribution
