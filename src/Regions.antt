-- ===== src/Regions.antt =====
-- labelkit/operators/segment_geometry.py: the checks of the regions that a model draws, and the
-- candidates made of them.
mod Examples
pub mod Data
pub mod Violations
pub mod Candidates
pub mod Legal
pub mod Checks
pub mod Accepted
