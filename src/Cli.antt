-- ===== src/Cli.antt =====
-- src/bin: the command line of the wallet.
pub mod Text
pub mod Command
pub mod Input
pub mod Main
