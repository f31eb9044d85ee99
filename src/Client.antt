-- ===== src/Client.antt =====
-- labelkit/common/inference/llm_client.py: a logical call of a provider, over a pool of keys.
pub mod Pool
pub mod Call
pub mod Progress
pub mod Accounting
mod Examples
