-- ===== src/Rollup/Fs.antt =====
-- src/rollup/mock_rollup_fs.rs: the contract in the file `rollup_state.json`. `Disk` is that file and
-- the outcome of each system call on it; a missing file and an empty one read the same, so `content`
-- is empty for both.
pub mod Refines
pub mod Races
use stateless_payments.Common.{
  ℕ, ◌≡◌, All, Bytes, ltb, Bool, true, false, Option, none, some, List, [], ◌∷◌, ◌++◌,
  if◌then◌else◌,
}
use stateless_payments.Common.Assoc.{lookup}
use stateless_payments.Common.Outcome.{Result, ok, err, panic, fail_if, on_ok, map_ok, ◌>>=◌, ◌>>◌}
use stateless_payments.Common.Words.{Profile, add_u64}
use stateless_payments.External.Bls.{Bls}
use stateless_payments.Types.PublicKey.{BlsPublicKeyWrapper, AccountTotals, wrap, wrapper_Eq}
use stateless_payments.Types.Errors.{CrateResult, anyhow, io_error, insufficient_funds}
use stateless_payments.Types.TransferBlock.{TransferBlock, IsAugmented}
use stateless_payments.Rollup.Traits.{
  RollupStateTrait, MockRollupStateTrait, get_account_deposit_amount, get_account_withdraw_amount,
}
use stateless_payments.Rollup.Memory.{add_to_total}

-- Which of the calls on the file fail, and what a write that fails leaves in it.
pub record Faults : Type 0 where
  pub open_fails : Bool
  pub lock_fails : Bool
  pub write_fails : Bool
  pub unlock_fails : Bool
  pub torn : Bytes

pub record Disk : Type 0 where
  pub content : Bytes
  pub faults : Faults
  pub open faults use *

module _ ⦃b : Bls⦄ where
  pub record RollupState : Type 0 where
    pub withdraw_totals : AccountTotals
    pub deposit_totals : AccountTotals
    pub transfer_blocks : List TransferBlock

  -- `RollupState::new`
  abbrev pub new_state : CrateResult RollupState
  new_state = ok (record { withdraw_totals = []; deposit_totals = []; transfer_blocks = [] })

  -- The same maps, in whatever order they are iterated, and the same blocks.
  pub record IsSameState (x y : RollupState) : Type 0 where
    pub same_withdraws :
        (q : BlsPublicKeyWrapper) → lookup q x.withdraw_totals ≡ lookup q y.withdraw_totals
    pub same_deposits :
        (q : BlsPublicKeyWrapper) → lookup q x.deposit_totals ≡ lookup q y.deposit_totals
    pub same_blocks : x.transfer_blocks ≡ y.transfer_blocks

  -- The blocks have signatures that can be read back.
  abbrev pub IsReadable : List TransferBlock → Type 0
  IsReadable blocks = All (λ block. IsAugmented block.signature) blocks

  -- `serde_json::{from_reader, to_writer}` at the state. The signatures in it are read by the
  -- `Deserialize` of src/types/signatures.rs, which knows one scheme: a state with such signatures
  -- reads back, no other signature is ever read, and what is read is what was written. An empty file
  -- is an error.
  pub record SerdeRollupState : Type 0 where
    pub from_reader : Bytes → Option RollupState
    pub to_writer : RollupState → Bytes
    pub from_reader-nil : from_reader [] ≡ none
    pub reads :
        (state : RollupState)
        → IsReadable state.transfer_blocks
        → (back : RollupState) × (from_reader (to_writer state) ≡ some back)
    pub from_reader-IsReadable :
        (text : Bytes) (state : RollupState)
        → from_reader text ≡ some state
        → IsReadable state.transfer_blocks
    pub from_reader-to_writer :
        (state back : RollupState)
        → from_reader (to_writer state) ≡ some back
        → IsSameState back state

module _ ⦃b : Bls⦄ ⦃c : SerdeRollupState⦄ where
  -- `unlock().expect(…)`
  abbrev pub expect_unlock : Bool → CrateResult (Unit {0})
  expect_unlock true = panic
  expect_unlock false = ok tt

  unfoldable pub read_state_from_fs : Disk → CrateResult RollupState
  read_state_from_fs disk = do
    fail_if disk.open_fails (anyhow io_error)
    fail_if disk.lock_fails (anyhow io_error)
    state ← elim (c.from_reader disk.content) [ some state ↦ ok state | none ↦ new_state ]
    expect_unlock disk.unlock_fails
    ok state

  -- Opening truncates the file, before the lock is taken.
  unfoldable pub write_state_to_fs : RollupState → Disk → CrateResult (Unit {0}) × Disk
  write_state_to_fs state disk =
      if disk.open_fails
      then (err (anyhow io_error), disk)
      else if disk.lock_fails
      then (err (anyhow io_error), record disk { content = [] })
      else if disk.write_fails
      then (err (anyhow io_error), record disk { content = disk.torn })
      else (
        fail_if disk.unlock_fails (anyhow io_error),
        record disk { content = c.to_writer state },
      )

  unfoldable pub add_transfer_block : TransferBlock → Disk → CrateResult (Unit {0}) × Disk
  unfolding read_state_from_fs write_state_to_fs
  add_transfer_block transfer_block self = on_ok (read_state_from_fs self) self λ state.
      write_state_to_fs
        (record state { transfer_blocks = state.transfer_blocks ++ transfer_block ∷ [] }) self

  abbrev pub get_withdraw_totals : Disk → CrateResult AccountTotals
  get_withdraw_totals self = map_ok (λ state. state.withdraw_totals) (read_state_from_fs self)

  abbrev pub get_deposit_totals : Disk → CrateResult AccountTotals
  get_deposit_totals self = map_ok (λ state. state.deposit_totals) (read_state_from_fs self)

  abbrev pub get_transfer_blocks : Disk → CrateResult (List TransferBlock)
  get_transfer_blocks self = map_ok (λ state. state.transfer_blocks) (read_state_from_fs self)

  instance abbrev pub fs_trait : RollupStateTrait Disk
  fs_trait = record {
    add_transfer_block = add_transfer_block;
    get_withdraw_totals = get_withdraw_totals;
    get_deposit_totals = get_deposit_totals;
    get_transfer_blocks = get_transfer_blocks;
  }

  module _ (profile : Profile) where
    -- The state that `add_deposit` writes, or its error.
    unfoldable pub deposited : b.PublicKey → ℕ → Disk → CrateResult RollupState
    unfolding read_state_from_fs add_to_total
    deposited pubkey amount self = do
      state ← read_state_from_fs self
      totals ← add_to_total profile (wrap pubkey) amount state.deposit_totals
      ok (record state { deposit_totals = totals })

    unfoldable pub add_deposit : b.PublicKey → ℕ → Disk → CrateResult (Unit {0}) × Disk
    unfolding deposited write_state_to_fs
    add_deposit pubkey amount self =
        on_ok (deposited pubkey amount self) self λ state. write_state_to_fs state self

    -- The state that `add_withdraw` writes, or its error.
    unfoldable pub withdrawn : b.PublicKey → ℕ → Disk → CrateResult RollupState
    unfolding read_state_from_fs add_to_total get_account_deposit_amount get_account_withdraw_amount
    withdrawn pubkey amount self = do
      deposit_amount ← get_account_deposit_amount pubkey self
      withdraw_amount ← get_account_withdraw_amount pubkey self
      needed ← add_u64 profile withdraw_amount amount
      fail_if (ltb deposit_amount needed) (anyhow insufficient_funds)
      state ← read_state_from_fs self
      totals ← add_to_total profile (wrap pubkey) amount state.withdraw_totals
      ok (record state { withdraw_totals = totals })

    unfoldable pub add_withdraw : b.PublicKey → ℕ → Disk → CrateResult (Unit {0}) × Disk
    unfolding withdrawn write_state_to_fs
    add_withdraw pubkey amount self =
        on_ok (withdrawn pubkey amount self) self λ state. write_state_to_fs state self

    abbrev pub fs_mock_trait : MockRollupStateTrait Disk
    fs_mock_trait = record { add_deposit = add_deposit; add_withdraw = add_withdraw }
