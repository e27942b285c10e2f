-- ===== src/Rollup/Fs/Refines.antt =====
-- The contract in a file (src/rollup/mock_rollup_fs.rs) against the contract in memory.
use stateless_payments.Common.{
  ℕ, ◌≡◌, refl, sym, subst, false, none, some, inl, inr, [], ◌∷◌, ◌++◌, ap, ◌∙◌, All-append,
  Option-cases, arith,
}
use stateless_payments.Common.Outcome.{ok, err, panic, on_ok, map_ok}
use stateless_payments.Common.Words.{Profile}
use stateless_payments.External.Bls.{Bls}
use stateless_payments.Types.PublicKey.{AccountTotals, wrap}
use stateless_payments.Types.Errors.{CrateResult}
use stateless_payments.Types.TransferBlock.{TransferBlock, IsAugmented}
use stateless_payments.Rollup.Memory.{MockRollupMemory, add_to_total}
use stateless_payments.Rollup.Memory
use stateless_payments.Rollup.Fs.{
  Disk, RollupState, SerdeRollupState, IsReadable, IsSameState, read_state_from_fs,
  write_state_to_fs, add_transfer_block, add_deposit, deposited, add_withdraw, withdrawn,
  get_withdraw_totals, get_deposit_totals, get_transfer_blocks,
}

-- Every system call on the file succeeds.
pub record IsHealthy (disk : Disk) : Type 0 where
  pub opens : disk.open_fails ≡ false
  pub locks : disk.lock_fails ≡ false
  pub writes : disk.write_fails ≡ false
  pub unlocks : disk.unlock_fails ≡ false

module _ ⦃b : Bls⦄ ⦃c : SerdeRollupState⦄ where
  -- The contract in memory that the file stands for.
  abbrev pub view : Disk → MockRollupMemory
  view disk = elim (c.from_reader disk.content) [
    | none ↦ Memory.new
    | some state ↦ record {
      withdraw_totals = state.withdraw_totals;
      deposit_totals = state.deposit_totals;
      transfer_blocks = state.transfer_blocks;
    }
  ]

  abbrev pub of_memory : MockRollupMemory → RollupState
  of_memory s = record {
    withdraw_totals = s.withdraw_totals;
    deposit_totals = s.deposit_totals;
    transfer_blocks = s.transfer_blocks;
  }

  -- The same answer, on a disk with the same faults, that stands for the other contract.
  abbrev pub Simulates :
      Disk → CrateResult (Unit {0}) × Disk → CrateResult (Unit {0}) × MockRollupMemory → Type 0
  Simulates disk x y =
      (x.0 ≡ y.0) × (x.1.faults ≡ disk.faults) × IsSameState (of_memory (view x.1)) (of_memory y.1)

  pub read-view :
      (disk : Disk) → IsHealthy disk → read_state_from_fs disk ≡ ok (of_memory (view disk))
  unfolding read_state_from_fs
  read-view disk h = ground arith

  same : (s : RollupState) → IsSameState s s
  same s = record { same_withdraws = λ q. refl; same_deposits = λ q. refl; same_blocks = refl }

  view-content :
      (disk : Disk) {back : RollupState}
      → c.from_reader disk.content ≡ some back
      → back ≡ of_memory (view disk)
  view-content disk h = ground arith

  pub view-none : (disk : Disk) → c.from_reader disk.content ≡ none → view disk ≡ Memory.new
  view-none disk h = rw (h, view) refl

  -- What was read can be read back.
  pub view-IsReadable : (disk : Disk) → IsReadable (view disk).transfer_blocks
  view-IsReadable disk = elim (Option-cases (c.from_reader disk.content)) [
    | inl missing ↦ subst (λ x. IsReadable x.transfer_blocks) (sym (view-none disk missing)) tt
    | inr (state, found) ↦
        subst (λ x. IsReadable x.transfer_blocks) (view-content disk found)
          (c.from_reader-IsReadable disk.content state found)
  ]

  pub write_lem :
      (disk : Disk) (state : RollupState)
      → IsHealthy disk
      → write_state_to_fs state disk ≡ (ok tt, record disk { content = c.to_writer state })
  unfolding write_state_to_fs
  write_lem disk state h = ground arith

  pub write-Simulates :
      (disk : Disk) (s : MockRollupMemory)
      → IsHealthy disk
      → IsReadable s.transfer_blocks
      → Simulates disk (write_state_to_fs (of_memory s) disk) (ok tt, s)
  write-Simulates disk s h readable =
      let (back, reads) = c.reads (of_memory s) readable in
      let alike = c.from_reader-to_writer (of_memory s) back reads in
      let written : Disk = record disk { content = c.to_writer (of_memory s) } in
      rw (write_lem disk (of_memory s) h)
        (refl, refl, subst (λ x. IsSameState x (of_memory s)) (view-content written reads) alike)

  -- What is read, changed and written, against the same change in memory.
  update-Simulates :
      {A : Type 0} (r : CrateResult A) (f : A → MockRollupMemory) (disk : Disk)
      → IsHealthy disk
      → ((x : A) → IsReadable (f x).transfer_blocks)
      → Simulates disk
          (on_ok (map_ok (λ x. of_memory (f x)) r) disk (λ state. write_state_to_fs state disk))
          (on_ok r (view disk) (λ x. (ok tt, f x)))
  update-Simulates (ok x) f disk h readable = write-Simulates disk (f x) h (readable x)
  update-Simulates (err e) f disk h readable = (refl, refl, same (of_memory (view disk)))
  update-Simulates panic f disk h readable = (refl, refl, same (of_memory (view disk)))

  abbrev pub with_deposits : MockRollupMemory → AccountTotals → MockRollupMemory
  with_deposits s totals = record s { deposit_totals = totals }

  abbrev with_withdraws : MockRollupMemory → AccountTotals → MockRollupMemory
  with_withdraws s totals = record s { withdraw_totals = totals }

  pub deposited_lem :
      (profile : Profile) (pk : b.PublicKey) (amount : ℕ) (disk : Disk)
      → IsHealthy disk
      → deposited profile pk amount disk
        ≡ map_ok
            (λ x. of_memory (with_deposits (view disk) x))
            (add_to_total profile (wrap pk) amount (view disk).deposit_totals)
  unfolding deposited
  deposited_lem profile pk amount disk h = ground (arith, read-view disk h)

  withdrawn_lem :
      (profile : Profile) (pk : b.PublicKey) (amount : ℕ) (disk : Disk)
      → IsHealthy disk
      → withdrawn profile pk amount disk
        ≡ map_ok
            (λ x. of_memory (with_withdraws (view disk) x))
            (Memory.withdrawn profile pk amount (view disk))
  unfolding withdrawn Memory.withdrawn
  withdrawn_lem profile pk amount disk h = ground (arith, read-view disk h)

  pub deposit-Simulates :
      (profile : Profile) (pk : b.PublicKey) (amount : ℕ) (disk : Disk)
      → IsHealthy disk
      → Simulates disk
          (add_deposit profile pk amount disk)
          (Memory.add_deposit profile pk amount (view disk))
  unfolding add_deposit Memory.add_deposit
  deposit-Simulates profile pk amount disk h =
      rw (deposited_lem profile pk amount disk h, add_deposit)
        (update-Simulates _ (with_deposits (view disk)) disk h (λ x. view-IsReadable disk))

  block-Simulates :
      (block : TransferBlock) (disk : Disk)
      → IsHealthy disk
      → IsAugmented block.signature
      → Simulates disk (add_transfer_block block disk) (Memory.add_transfer_block block (view disk))
  unfolding add_transfer_block
  block-Simulates block disk h augmented =
      rw (read-view disk h, add_transfer_block)
        (write-Simulates disk _ h (
          All-append (λ x. IsAugmented x.signature) (view disk).transfer_blocks (block ∷ [])
            (view-IsReadable disk) (augmented, tt)))

  -- A block that is stored is read back behind the others.
  pub stored_block :
      (block : TransferBlock) (disk : Disk)
      → IsHealthy disk
      → IsAugmented block.signature
      → Simulates disk (add_transfer_block block disk) (Memory.add_transfer_block block (view disk))
        × (get_transfer_blocks (add_transfer_block block disk).1
            ≡ ok ((view disk).transfer_blocks ++ block ∷ []))
  stored_block block disk h augmented =
      let (answers, same_faults, alike) = block-Simulates block disk h augmented in
      let left = (add_transfer_block block disk).1 in
      let healthy : IsHealthy left = record {
        opens = ap (λ x. x.open_fails) same_faults ∙ h.opens;
        locks = ap (λ x. x.lock_fails) same_faults ∙ h.locks;
        writes = ap (λ x. x.write_fails) same_faults ∙ h.writes;
        unlocks = ap (λ x. x.unlock_fails) same_faults ∙ h.unlocks;
      } in
      ((answers, same_faults, alike), rw (read-view left healthy) (ap ok alike.same_blocks))

  -- On a disk where every system call succeeds, each call on the file answers as the contract in
  -- memory does, and leaves a file that stands for what that contract becomes, if the signature of a
  -- block that is added is of the scheme `MessageAugmentation`.
  pub fs_refines_memory :
      (profile : Profile) (pk : b.PublicKey) (amount : ℕ) (block : TransferBlock) (disk : Disk)
      → IsHealthy disk
      → IsAugmented block.signature
      → Simulates disk (add_transfer_block block disk) (Memory.add_transfer_block block (view disk))
        × Simulates disk
            (add_deposit profile pk amount disk)
            (Memory.add_deposit profile pk amount (view disk))
        × Simulates disk
            (add_withdraw profile pk amount disk)
            (Memory.add_withdraw profile pk amount (view disk))
        × (get_withdraw_totals disk ≡ ok (view disk).withdraw_totals)
        × (get_deposit_totals disk ≡ ok (view disk).deposit_totals)
        × (get_transfer_blocks disk ≡ ok (view disk).transfer_blocks)
  unfolding add_transfer_block add_deposit add_withdraw Memory.add_deposit Memory.add_withdraw
  fs_refines_memory profile pk amount block disk h augmented = (
    block-Simulates block disk h augmented,
    deposit-Simulates profile pk amount disk h,
    rw (withdrawn_lem profile pk amount disk h, add_withdraw)
        (update-Simulates _ (with_withdraws (view disk)) disk h (λ x. view-IsReadable disk)),
    rw (read-view disk h),
    rw (read-view disk h),
    rw (read-view disk h),
  )
