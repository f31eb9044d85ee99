-- ===== src/Dedup.antt =====
-- labelkit/operators/dedup.py: the index of the records that were kept.
pub mod Group
pub mod Records
mod Examples
