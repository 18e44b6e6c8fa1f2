-- ===== src/Agents.antt =====
-- The agents, autosentinel/agents.
pub mod Prompts
pub mod Replies
pub mod Diagnosis
pub mod Supervisor
pub mod SecurityReviewer
pub mod Parsing
pub mod Producer
pub mod Normalizer
pub mod Verifier
