-- ===== src/Runtime.antt =====
-- labelkit/runtime: the resource capacities and the structured executor of task groups.
mod Examples
pub mod Keys
pub mod Resources
pub mod Intake
pub mod Errors
pub mod Group
