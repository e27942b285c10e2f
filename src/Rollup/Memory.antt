-- ===== src/Rollup/Memory.antt =====
-- src/rollup/mock_rollup_memory.rs. The implementations for `Arc<Mutex<…>>` take the lock and call
-- these.
pub mod Totals
pub mod Solvency
pub mod Blocks
use stateless_payments.Common.{ℕ, ◌+◌, ltb, Bool, Option, none, some, List, [], ◌∷◌, ◌++◌}
use stateless_payments.Common.Assoc.{lookup, insert}
use stateless_payments.Common.Outcome.{ok, err, fail_if, on_ok, ◌>>=◌, ◌>>◌}
use stateless_payments.Common.Words.{Profile, add_u64}
use stateless_payments.External.Bls.{Bls}
use stateless_payments.Types.PublicKey.{BlsPublicKeyWrapper, AccountTotals, wrap, wrapper_Eq}
use stateless_payments.Types.Errors.{CrateResult, anyhow, insufficient_funds}
use stateless_payments.Types.TransferBlock.{TransferBlock}
use stateless_payments.Rollup.Traits.{
  RollupStateTrait, MockRollupStateTrait, get_account_deposit_amount, get_account_withdraw_amount,
}

module _ ⦃b : Bls⦄ where
  pub record MockRollupMemory : Type 0 where
    pub withdraw_totals : AccountTotals
    pub deposit_totals : AccountTotals
    pub transfer_blocks : List TransferBlock

  -- `MockRollupMemory::new`
  abbrev pub new : MockRollupMemory
  new = record { withdraw_totals = []; deposit_totals = []; transfer_blocks = [] }

  abbrev pub add_transfer_block :
      TransferBlock → MockRollupMemory → CrateResult (Unit {0}) × MockRollupMemory
  add_transfer_block transfer_block self =
      (ok tt, record self { transfer_blocks = self.transfer_blocks ++ transfer_block ∷ [] })

  instance abbrev pub memory_trait : RollupStateTrait MockRollupMemory
  memory_trait = record {
    add_transfer_block = add_transfer_block;
    get_withdraw_totals = λ self. ok self.withdraw_totals;
    get_deposit_totals = λ self. ok self.deposit_totals;
    get_transfer_blocks = λ self. ok self.transfer_blocks;
  }

  module _ (profile : Profile) where
    -- `totals.entry(key).and_modify(|e| *e += amount).or_insert(amount)`
    unfoldable pub add_to_total :
        BlsPublicKeyWrapper → ℕ → AccountTotals → CrateResult AccountTotals
    add_to_total key amount totals = elim (lookup key totals) [
      | none ↦ ok (insert key amount totals)
      | some e ↦ do sum ← add_u64 profile e amount; ok (insert key sum totals)
    ]

    unfoldable pub add_deposit :
        b.PublicKey → ℕ → MockRollupMemory → CrateResult (Unit {0}) × MockRollupMemory
    unfolding add_to_total
    add_deposit pubkey amount self =
        on_ok (add_to_total (wrap pubkey) amount self.deposit_totals) self
          λ totals. (ok tt, record self { deposit_totals = totals })

    -- The new withdraw totals of `add_withdraw`, or its error.
    unfoldable pub withdrawn : b.PublicKey → ℕ → MockRollupMemory → CrateResult AccountTotals
    unfolding add_to_total get_account_deposit_amount get_account_withdraw_amount
    withdrawn pubkey amount self = do
      deposit_amount ← get_account_deposit_amount pubkey self
      withdraw_amount ← get_account_withdraw_amount pubkey self
      needed ← add_u64 profile withdraw_amount amount
      fail_if (ltb deposit_amount needed) (anyhow insufficient_funds)
      add_to_total (wrap pubkey) amount self.withdraw_totals

    unfoldable pub add_withdraw :
        b.PublicKey → ℕ → MockRollupMemory → CrateResult (Unit {0}) × MockRollupMemory
    unfolding withdrawn
    add_withdraw pubkey amount self =
        on_ok (withdrawn pubkey amount self) self
          λ totals. (ok tt, record self { withdraw_totals = totals })

    abbrev pub memory_mock_trait : MockRollupStateTrait MockRollupMemory
    memory_mock_trait = record { add_deposit = add_deposit; add_withdraw = add_withdraw }
