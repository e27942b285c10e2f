-- ===== src/Flow.antt =====
-- How the parts work together: a round between a wallet, the aggregator and the rollup.
pub mod Handshake
pub mod Confirm
pub mod Payment
pub mod Delivery
pub mod Filed
