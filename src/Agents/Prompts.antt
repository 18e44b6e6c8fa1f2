-- ===== src/Agents/Prompts.antt =====
-- The prompt texts of autosentinel/agents/prompts, a line of the source's text to each entry.
pub mod Diagnosis
pub mod Supervisor
pub mod CodeFixer
pub mod InfraSre
pub mod SecurityReviewer
