-- ===== src/Examples.antt =====
-- Concrete inputs on which the theorems of the library are applied.
pub mod Table
pub mod Attempts
pub mod Messages
pub mod Executions
pub mod Settings
pub mod Deadlines
pub mod Deliveries
pub mod Services
pub mod Media
