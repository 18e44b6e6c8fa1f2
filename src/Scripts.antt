-- ===== src/Scripts.antt =====
-- The commands of scripts: the check of who wrote a scenario, the probe of the endpoints, and
-- the call under a trace.
pub mod Authorship
pub mod Endpoints
pub mod Trace
