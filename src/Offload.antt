-- ===== src/Offload.antt =====
-- python/vllm_adapter/offloading_spec.py: `S3FIFOCachePolicy`, the eviction policy of the CPU tier
-- of vLLM: its state, the rounds of the loop of `evict`, and its methods.
pub mod State
pub mod Loop
pub mod Methods
pub mod Rounds
pub mod Kept
pub mod Drop
pub mod Valid
pub mod Capped
pub mod Collect
pub mod Settle
pub mod Evict
pub mod Insert
pub mod Touch
pub mod Contract
pub mod Calls
