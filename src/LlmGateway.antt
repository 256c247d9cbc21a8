-- ===== src/LlmGateway.antt =====
-- The gateway in front of the language models (llm_gateway).
pub mod Config
pub mod Policy
pub mod Keying
pub mod Params
pub mod Costs
pub mod Forward
pub mod Cache
pub mod Server
mod Tests
mod ServerTests
mod RequestTests
