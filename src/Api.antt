-- ===== src/Api.antt =====
-- autosentinel/api: the event gateway.
pub mod Results
pub mod Search
pub mod Worker
pub mod Logging
pub mod Routes
pub mod Resume
pub mod Board
