-- ===== src/Tests/Contracts.antt =====
-- Rollup at the scene: the contract in memory and in its file.
use stateless_payments.Common.{◌≡◌, refl, true, false, none, some, [], ◌∷◌, arith}
use stateless_payments.Common.Outcome.{ok, err}
use stateless_payments.Common.Words.{debug}
use stateless_payments.Types.PublicKey.{wrap, eq_iff, wrapper_Eq}
use stateless_payments.Types.Errors.{anyhow, io_error}
use stateless_payments.Types.TransferBlock.{
  TransferBlock, aggregated, contains_pubkey, signature_contains,
}
use stateless_payments.Rollup.Traits.{
  get_account_transfer_blocks, get_transfer_block_for_merkle_root_and_pubkey,
}
use stateless_payments.Rollup.Memory.{MockRollupMemory, new, memory_trait}
use stateless_payments.Rollup.Memory
use stateless_payments.Rollup.Memory.Solvency.{
  IsSolvent, here, next, deposits, withdraws, reachable-IsSolvent,
}
use stateless_payments.Rollup.Fs.{Disk, Faults, RollupState}
use stateless_payments.Rollup.Fs
use stateless_payments.Rollup.Fs.Races.{deposit_lost, failed_lock_forgets, unreadable_block_forgets}
use stateless_payments.Rollup.Fs.Refines.{IsHealthy, view, Simulates, fs_refines_memory}
use stateless_payments.Tests.Crates.{toy_bls}
use stateless_payments.Tests.Texts.{toy_serde_rollup}
use stateless_payments.Tests.Scene.{alice, round_root, round_block, before_block, after_block}

pub after_block-IsSolvent : IsSolvent after_block
after_block-IsSolvent q = ground (arith, eq_iff q (wrap alice))

reachable-IsSolvent_example :
    IsSolvent (Memory.add_withdraw debug alice 40 (Memory.add_deposit debug alice 100 new).1).1
reachable-IsSolvent_example =
    reachable-IsSolvent (next (next here (deposits alice 100)) (withdraws alice 40 (omega arith)))

found_before : get_transfer_block_for_merkle_root_and_pubkey round_root alice before_block ≡ ok none
unfolding get_transfer_block_for_merkle_root_and_pubkey
found_before = refl

found_after :
    get_transfer_block_for_merkle_root_and_pubkey round_root alice after_block
    ≡ ok (some round_block)
unfolding get_transfer_block_for_merkle_root_and_pubkey contains_pubkey signature_contains
found_after = refl

blocks_before : get_account_transfer_blocks alice before_block ≡ ok []
unfolding get_account_transfer_blocks
blocks_before = refl

abbrev empty_disk : Disk
empty_disk = record {
  content = [];
  faults = record {
    open_fails = false;
    lock_fails = false;
    write_fails = false;
    unlock_fails = false;
    torn = [];
  };
}

-- The disk after a deposit of 100.
abbrev full_disk : Disk
full_disk = (Fs.add_deposit debug alice 100 empty_disk).1

empty_disk-IsHealthy : IsHealthy empty_disk
empty_disk-IsHealthy = record { opens = refl; locks = refl; writes = refl; unlocks = refl }

full_disk-IsHealthy : IsHealthy full_disk
unfolding Fs.add_deposit Fs.deposited Fs.read_state_from_fs Fs.write_state_to_fs Memory.add_to_total
full_disk-IsHealthy = record { opens = refl; locks = refl; writes = refl; unlocks = refl }

fs_refines_memory_example :
    Simulates full_disk
      (Fs.add_transfer_block round_block full_disk)
      (Memory.add_transfer_block round_block (view full_disk))
    × Simulates full_disk
        (Fs.add_deposit debug alice 30 full_disk)
        (Memory.add_deposit debug alice 30 (view full_disk))
    × Simulates full_disk
        (Fs.add_withdraw debug alice 30 full_disk)
        (Memory.add_withdraw debug alice 30 (view full_disk))
    × (Fs.get_withdraw_totals full_disk ≡ ok (view full_disk).withdraw_totals)
    × (Fs.get_deposit_totals full_disk ≡ ok (view full_disk).deposit_totals)
    × (Fs.get_transfer_blocks full_disk ≡ ok (view full_disk).transfer_blocks)
fs_refines_memory_example =
    fs_refines_memory debug alice 30 round_block full_disk full_disk-IsHealthy refl

-- What two deposits that have read the full disk are about to write.
abbrev first_write : RollupState
first_write = record {
  withdraw_totals = [];
  deposit_totals = (wrap alice, 130) ∷ [];
  transfer_blocks = [];
}

abbrev second_write : RollupState
second_write = record {
  withdraw_totals = [];
  deposit_totals = (wrap alice, 120) ∷ [];
  transfer_blocks = [];
}

first_read : Fs.deposited debug alice 30 full_disk ≡ ok first_write
unfolding Fs.add_deposit Fs.deposited Fs.read_state_from_fs Fs.write_state_to_fs Memory.add_to_total
first_read = refl

second_read : Fs.deposited debug alice 20 full_disk ≡ ok second_write
unfolding Fs.add_deposit Fs.deposited Fs.read_state_from_fs Fs.write_state_to_fs Memory.add_to_total
second_read = refl

deposit_lost_example :
    let (answer, disk1) = Fs.write_state_to_fs first_write full_disk in
    (answer ≡ ok tt)
    × Simulates full_disk
        (Fs.write_state_to_fs second_write disk1)
        (Memory.add_deposit debug alice 20 (view full_disk))
deposit_lost_example =
    deposit_lost debug alice alice 30 20 full_disk full_disk-IsHealthy first_read second_read

abbrev stuck_disk : Disk
stuck_disk = record {
  content = full_disk.content;
  faults = record (full_disk.faults) { lock_fails = true };
}

stuck_opens : stuck_disk.open_fails ≡ false
unfolding Fs.add_deposit Fs.deposited Fs.read_state_from_fs Fs.write_state_to_fs Memory.add_to_total
stuck_opens = refl

failed_lock_forgets_example :
    let (answer, disk1) = Fs.write_state_to_fs first_write stuck_disk in
    let left : Disk = record disk1 { faults = empty_disk.faults } in
    (answer ≡ err (anyhow io_error))
    × Simulates left
        (Fs.add_transfer_block round_block left)
        (Memory.add_transfer_block round_block new)
    × Simulates left (Fs.add_deposit debug alice 30 left) (Memory.add_deposit debug alice 30 new)
    × Simulates left (Fs.add_withdraw debug alice 30 left) (Memory.add_withdraw debug alice 30 new)
failed_lock_forgets_example =
    failed_lock_forgets debug first_write alice 30 round_block stuck_disk (empty_disk.faults)
      stuck_opens refl (record { opens = refl; locks = refl; writes = refl; unlocks = refl }) refl

-- Of another scheme.
abbrev basic_block : TransferBlock
basic_block = record { signature = aggregated [] []; merkle_root = round_root }

unreadable_block_forgets_example :
    let (answer, left) = Fs.add_transfer_block basic_block full_disk in
    (answer ≡ ok tt)
    × (Fs.get_transfer_blocks left ≡ ok [])
    × Simulates left (Fs.add_deposit debug alice 30 left) (Memory.add_deposit debug alice 30 new)
unreadable_block_forgets_example =
    unreadable_block_forgets debug alice 30 basic_block full_disk full_disk-IsHealthy (λ h. cc)
