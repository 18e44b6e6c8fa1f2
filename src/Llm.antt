-- ===== src/Llm.antt =====
-- The LLM layer, autosentinel/llm.
pub mod CostGuard
pub mod Protocol
pub mod Client
pub mod Factory
pub mod Mock
