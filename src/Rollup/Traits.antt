-- ===== src/Rollup/Traits.antt =====
-- src/rollup/traits.rs: what the program asks of the rollup contract, and the methods that the trait
-- derives. `State` is what stands behind `&self`; a failed call keeps what it wrote.
use stateless_payments.Common.{
  ℕ, Bytes, bytes_eq, Bool, ◌&&◌, Option, none, some, List, find, filter,
}
use stateless_payments.Common.Assoc.{lookup}
use stateless_payments.Common.Outcome.{ok, ◌>>=◌}
use stateless_payments.External.Bls.{Bls}
use stateless_payments.Types.PublicKey.{BlsPublicKeyWrapper, AccountTotals, wrap, wrapper_Eq}
use stateless_payments.Types.Errors.{CrateResult}
use stateless_payments.Types.TransferBlock.{TransferBlock, contains_pubkey}

module _ ⦃b : Bls⦄ where
  pub record RollupStateTrait (State : Type 0) : Type 0 where
    pub add_transfer_block : TransferBlock → State → CrateResult (Unit {0}) × State
    pub get_withdraw_totals : State → CrateResult AccountTotals
    pub get_deposit_totals : State → CrateResult AccountTotals
    pub get_transfer_blocks : State → CrateResult (List TransferBlock)

  -- `*totals.get(key).unwrap_or(&0)`
  abbrev pub total_of : BlsPublicKeyWrapper → AccountTotals → ℕ
  total_of key totals = elim (lookup key totals) [ none ↦ 0 | some amount ↦ amount ]

  -- The test of `get_transfer_block_for_merkle_root_and_pubkey`.
  abbrev pub is_block_for : Bytes → b.PublicKey → TransferBlock → Bool
  is_block_for merkle_root pubkey block =
      bytes_eq block.merkle_root merkle_root && contains_pubkey block pubkey

  module _ {State : Type 0} ⦃t : RollupStateTrait State⦄ where
    unfoldable pub get_account_withdraw_amount : b.PublicKey → State → CrateResult ℕ
    get_account_withdraw_amount pubkey self = do
      withdraw_totals ← t.get_withdraw_totals self
      ok (total_of (wrap pubkey) withdraw_totals)

    unfoldable pub get_account_deposit_amount : b.PublicKey → State → CrateResult ℕ
    get_account_deposit_amount pubkey self = do
      deposit_totals ← t.get_deposit_totals self
      ok (total_of (wrap pubkey) deposit_totals)

    unfoldable pub get_account_transfer_blocks :
        b.PublicKey → State → CrateResult (List TransferBlock)
    get_account_transfer_blocks pubkey self = do
      transfer_blocks ← t.get_transfer_blocks self
      ok (filter (λ block. contains_pubkey block pubkey) transfer_blocks)

    unfoldable pub get_transfer_block_for_merkle_root_and_pubkey :
        Bytes → b.PublicKey → State → CrateResult (Option TransferBlock)
    get_transfer_block_for_merkle_root_and_pubkey merkle_root pubkey self = do
      transfer_blocks ← t.get_transfer_blocks self
      ok (find (is_block_for merkle_root pubkey) transfer_blocks)

  -- `MockRollupStateTrait`, beside the trait that it extends.
  pub record MockRollupStateTrait (State : Type 0) : Type 0 where
    pub add_deposit : b.PublicKey → ℕ → State → CrateResult (Unit {0}) × State
    pub add_withdraw : b.PublicKey → ℕ → State → CrateResult (Unit {0}) × State
