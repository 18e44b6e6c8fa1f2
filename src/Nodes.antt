-- ===== src/Nodes.antt =====
-- The nodes of autosentinel/nodes, which read the log and write the report.
pub mod Files
pub mod ParseLog
pub mod Report
