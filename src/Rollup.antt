-- ===== src/Rollup.antt =====
-- src/rollup: the L1 contract that wallets and the aggregator see, and its two mock implementations.
pub mod Traits
pub mod Memory
pub mod Fs
