-- ===== src/Execute.antt =====
-- The execution service: app/services/execute_service.py, with the model's prices and the
-- conversation's counters that it reads and writes.
pub mod Usage
pub mod Context
pub mod Translate
pub mod Stream
pub mod Mcp
pub mod Files
pub mod Services
pub mod Relay
pub mod Run
mod Tests
