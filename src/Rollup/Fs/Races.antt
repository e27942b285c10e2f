-- ===== src/Rollup/Fs/Races.antt =====
-- What is lost on the contract's file: a call reads it, changes what it read, and writes that back
-- under another lock, which it takes once opening has emptied the file (src/rollup/mock_rollup_fs.rs).
use stateless_payments.Common.{
  List, ◌∷◌, ◌++◌, inl, inr, Option-cases, ap, true, false, subst, [], ℕ, ◌≡◌, refl, sym, ◌∙◌,
  arith,
}
use stateless_payments.Common.Outcome.{Result, ok, err, panic, map_ok, on_ok_inv}
use stateless_payments.Common.Words.{Profile}
use stateless_payments.External.Bls.{Bls}
use stateless_payments.Types.PublicKey.{wrap}
use stateless_payments.Types.TransferBlock.{TransferBlock, IsAugmented}
use stateless_payments.Types.Errors.{anyhow, io_error}
use stateless_payments.Rollup.Memory.{MockRollupMemory, add_to_total}
use stateless_payments.Rollup.Memory
use stateless_payments.Rollup.Fs.{
  get_transfer_blocks, IsReadable, add_deposit, Disk, RollupState, SerdeRollupState,
  write_state_to_fs, deposited, Faults, add_transfer_block, add_withdraw,
}
use stateless_payments.Rollup.Fs.Refines.{
  fs_refines_memory, IsHealthy, view, of_memory, Simulates, with_deposits, deposited_lem, write_lem,
  view-none, view-IsReadable, read-view, deposit-Simulates, write-Simulates,
}

map_ok_inv :
    {E A B : Type 0} (f : A → B) (r : Result E A) {y : B}
    → map_ok f r ≡ ok y
    → (x : A) × (r ≡ ok x) × (y ≡ f x)
map_ok_inv f (ok x) h = (x, refl, cc)
map_ok_inv f (err e) h = cc
map_ok_inv f panic h = cc

module _ ⦃b : Bls⦄ ⦃c : SerdeRollupState⦄ (profile : Profile) where
  -- What a deposit that has read the file is about to write.
  deposited_inv :
      (pk : b.PublicKey) (amount : ℕ) (disk : Disk) {x : RollupState}
      → IsHealthy disk
      → deposited profile pk amount disk ≡ ok x
      → (after : MockRollupMemory) × (Memory.add_deposit profile pk amount (view disk)
          ≡ (ok tt, after))
        × (x ≡ of_memory after)
  unfolding Memory.add_deposit
  deposited_inv pk amount disk h d =
      let (totals, added, made) =
        map_ok_inv (λ x. of_memory (with_deposits (view disk) x))
          (add_to_total profile (wrap pk) amount (view disk).deposit_totals)
          (sym (deposited_lem profile pk amount disk h) ∙ d) in
      (with_deposits (view disk) totals, ground (arith, added), made)

  deposit_blocks :
      (pk : b.PublicKey) (amount : ℕ) (disk : Disk) {after : MockRollupMemory}
      → Memory.add_deposit profile pk amount (view disk) ≡ (ok tt, after)
      → after.transfer_blocks ≡ (view disk).transfer_blocks
  unfolding Memory.add_deposit
  deposit_blocks pk amount disk {after} h =
      let (totals, _, left) =
        on_ok_inv (add_to_total profile (wrap pk) amount (view disk).deposit_totals) (view disk) _
          h in
      ap (λ x. x.1.transfer_blocks) (sym left)

  -- If two deposits have both read the file before either writes it, both answer well, and the file
  -- stands for the contract in which only the one that writes last was made.
  pub deposit_lost :
      (pk pk' : b.PublicKey) (amount amount' : ℕ) (disk : Disk) {first second : RollupState}
      → IsHealthy disk
      → deposited profile pk amount disk ≡ ok first
      → deposited profile pk' amount' disk ≡ ok second
      → let (answer, disk1) = write_state_to_fs first disk in
        (answer ≡ ok tt)
        × Simulates disk
            (write_state_to_fs second disk1)
            (Memory.add_deposit profile pk' amount' (view disk))
  deposit_lost pk pk' amount amount' disk {first} {second} h d d' =
      let (after, deposits, is_after) = deposited_inv pk' amount' disk h d' in
      let disk1 : Disk = record disk { content = c.to_writer first } in
      let healthy : IsHealthy disk1 = record {
        opens = h.opens;
        locks = h.locks;
        writes = h.writes;
        unlocks = h.unlocks;
      } in
      rw (write_lem disk first h, is_after, deposits)
        (
          refl,
          write-Simulates disk1 after healthy (
              subst IsReadable (sym (deposit_blocks pk' amount' disk deposits))
                (view-IsReadable disk)),
        )

  -- A write that opens the file and then fails to lock it answers with an error. When the system
  -- calls succeed again, nothing of the contract is left: blocks, deposits and withdrawals are
  -- answered, and stored, as on a new one, if the signature of the block is of the scheme
  -- `MessageAugmentation`.
  pub failed_lock_forgets :
      (state : RollupState) (pk : b.PublicKey) (amount : ℕ) (block : TransferBlock) (disk : Disk)
      (healed : Faults)
      → disk.open_fails ≡ false
      → disk.lock_fails ≡ true
      → IsHealthy (record disk { faults = healed })
      → IsAugmented block.signature
      → let (answer, disk1) = write_state_to_fs state disk in
        let left : Disk = record disk1 { faults = healed } in
        (answer ≡ err (anyhow io_error))
        × Simulates left
            (add_transfer_block block left)
            (Memory.add_transfer_block block Memory.new)
        × Simulates left
            (add_deposit profile pk amount left)
            (Memory.add_deposit profile pk amount Memory.new)
        × Simulates left
            (add_withdraw profile pk amount left)
            (Memory.add_withdraw profile pk amount Memory.new)
  unfolding write_state_to_fs
  failed_lock_forgets state pk amount block disk healed opens stuck h augmented =
      let left : Disk = record { content = []; faults = healed } in
      let healthy : IsHealthy left = record {
        opens = h.opens;
        locks = h.locks;
        writes = h.writes;
        unlocks = h.unlocks;
      } in
      let empty : view left ≡ Memory.new = view-none left c.from_reader-nil in
      let (blocks, deposits, withdraws, _, _, _) =
        fs_refines_memory profile pk amount block left healthy augmented in
      rw (opens, stuck)
        (
          refl,
          subst
              (λ s.
                Simulates left (add_transfer_block block left) (Memory.add_transfer_block block s))
              empty blocks,
          subst
              (λ s.
                Simulates left (add_deposit profile pk amount left)
                  (Memory.add_deposit profile pk amount s))
              empty deposits,
          subst
              (λ s.
                Simulates left (add_withdraw profile pk amount left)
                  (Memory.add_withdraw profile pk amount s))
              empty withdraws,
        )

  added_lem :
      (block : TransferBlock) (disk : Disk)
      → IsHealthy disk
      → add_transfer_block block disk ≡ (
        ok tt,
        record disk {
          content = c.to_writer (of_memory (Memory.add_transfer_block block (view disk)).1);
        },
      )
  unfolding add_transfer_block
  added_lem block disk h = rw (read-view disk h) (write_lem disk _ h)

  last_readable :
      (blocks : List TransferBlock) (block : TransferBlock)
      → IsReadable (blocks ++ block ∷ [])
      → IsAugmented block.signature
  last_readable [] block h = h.0
  last_readable (x ∷ blocks) block h = last_readable blocks block h.1

  -- On a disk where every system call succeeds, adding a block whose signature is of another scheme
  -- answers well, but nothing of the contract is left: the file has no blocks, not even this one, and
  -- a deposit is answered and stored as on a new contract.
  pub unreadable_block_forgets :
      (pk : b.PublicKey) (amount : ℕ) (block : TransferBlock) (disk : Disk)
      → IsHealthy disk
      → ¬ IsAugmented block.signature
      → let (answer, left) = add_transfer_block block disk in
        (answer ≡ ok tt)
        × (get_transfer_blocks left ≡ ok [])
        × Simulates left
            (add_deposit profile pk amount left)
            (Memory.add_deposit profile pk amount Memory.new)
  unreadable_block_forgets pk amount block disk h unreadable =
      let state = of_memory (Memory.add_transfer_block block (view disk)).1 in
      let left : Disk = record disk { content = c.to_writer state } in
      let healthy : IsHealthy left = record {
        opens = h.opens;
        locks = h.locks;
        writes = h.writes;
        unlocks = h.unlocks;
      } in
      let adds : add_transfer_block block disk ≡ (ok tt, left) = added_lem block disk h in
      let empty : view left ≡ Memory.new = elim (Option-cases (c.from_reader (c.to_writer state))) [
        | inl missing ↦ view-none left missing
        | inr (back, found) ↦ absurd (
            unreadable (
              last_readable (view disk).transfer_blocks block (
                subst IsReadable (c.from_reader-to_writer state back found).same_blocks
                  (c.from_reader-IsReadable (c.to_writer state) back found))))
      ] in
      rw adds (
        refl,
        rw (read-view left healthy, empty) refl,
        subst
            (λ s.
              Simulates left (add_deposit profile pk amount left)
                (Memory.add_deposit profile pk amount s))
            empty (deposit-Simulates profile pk amount left healthy),
      )
