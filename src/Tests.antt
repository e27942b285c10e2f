-- ===== src/Tests.antt =====
-- Concrete crates, and the theorems at concrete inputs.
mod Crates
mod Codec
mod Texts
mod Scene
mod Rounds
mod Balances
mod Wallets
mod Contracts
mod Kinds
mod Payments
mod Wire
mod Wrappers
mod Clients
mod Deliveries
mod Broken
mod Commands
mod Servers
mod Starts
