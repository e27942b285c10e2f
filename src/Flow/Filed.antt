-- ===== src/Flow/Filed.antt =====
-- The block of a round in the contract's file (src/aggregator.rs and src/rollup/mock_rollup_fs.rs).
use stateless_payments.Common.{◌≡◌, ◌≢◌, [], ◌∷◌, ◌++◌, map, All, is_empty, arith, ap, subst}
use stateless_payments.Common.Outcome.{ok, fail_if, on_ok_inv, >>=-eq-ok}
use stateless_payments.External.Bls.{Bls}
use stateless_payments.External.Sha2.{Sha256}
use stateless_payments.External.RsMerkle.{RsMerkle}
use stateless_payments.External.IndexMap.{IndexMap}
use stateless_payments.Types.PublicKey.{BlsPublicKeyWrapper, wrapper_Eq}
use stateless_payments.Types.Transaction.{SerdeTransaction, sha256_algorithm_hash}
use stateless_payments.Types.Errors.{anyhow, no_signatures}
use stateless_payments.Types.TransferBlock.{TransferBlock, IsAugmented, new_signature, verify_block}
use stateless_payments.Types.TransferBlock.Signers.{new_signature-IsAugmented}
use stateless_payments.Aggregator.{
  TxMetadata, Aggregator, collect_signatures, finalised, check_aggregator_state, root,
  transfer_block_of, finalise,
}
use stateless_payments.Aggregator.Invariant.{IsValid, entries_of}
use stateless_payments.Aggregator.Finalise.{signers, finalise-verifies}
use stateless_payments.Rollup.Memory
use stateless_payments.Rollup.Fs.{Disk, SerdeRollupState, add_transfer_block, get_transfer_blocks}
use stateless_payments.Rollup.Fs.Refines
use stateless_payments.Rollup.Fs.Refines.{view, Simulates, stored_block}

module _ ⦃b : Bls⦄ ⦃s : Sha256⦄ ⦃j : SerdeTransaction⦄ ⦃m : RsMerkle sha256_algorithm_hash⦄
    ⦃im : IndexMap BlsPublicKeyWrapper TxMetadata⦄ where
  -- A block's signature is made of those that came in.
  block_signature :
      (a : Aggregator) {block : TransferBlock}
      → transfer_block_of a ≡ ok block
      → new_signature (signers (entries_of a)) ≡ ok block.signature
  unfolding transfer_block_of
  block_signature a h =
      let signed = signers (entries_of a) in
      let (_, _, h1) = >>=-eq-ok (check_aggregator_state a collect_signatures) _ h in
      let (_, _, h2) = >>=-eq-ok (fail_if (is_empty signed) (anyhow no_signatures)) _ h1 in
      let (signature, made, h3) = >>=-eq-ok (new_signature signed) _ h2 in
      let (r, _, h4) = >>=-eq-ok (root a) _ h3 in ground (arith, made, h4)

  finalised-IsAugmented :
      (a : Aggregator) {block : TransferBlock} {u : Aggregator}
      → All b.IsAugmented (map (λ x. x.1) (signers (entries_of a)))
      → finalise a ≡ (ok block, u)
      → IsAugmented block.signature
  unfolding finalise
  finalised-IsAugmented a {block} augmented h =
      let (made, is_made, left) = on_ok_inv (transfer_block_of a) a _ h in
      let same : made ≡ block = let e = ap (λ x. x.0) left in cc in
      subst (λ x. IsAugmented x.signature) same
        (new_signature-IsAugmented (signers (entries_of a)) augmented (block_signature a is_made))

  module _ ⦃c : SerdeRollupState⦄ where
    -- If a valid aggregator collects signatures and has at least one, all of the wallets' scheme, and
    -- every system call on the contract's file succeeds, the round ends in a block that verifies.
    -- Adding it answers well, and the file then holds the contract that stood there with this block
    -- behind its others, which is what its blocks read as.
    pub finalised_on_file :
        (a : Aggregator) (disk : Disk)
        → IsValid a
        → a.state ≡ collect_signatures
        → signers (entries_of a) ≢ []
        → All b.IsAugmented (map (λ x. x.1) (signers (entries_of a)))
        → Refines.IsHealthy disk
        → (block : TransferBlock) × (finalise a ≡ (ok block, record a { state = finalised block }))
          × (verify_block block ≡ ok tt)
          × Simulates disk
              (add_transfer_block block disk)
              (Memory.add_transfer_block block (view disk))
          × (get_transfer_blocks (add_transfer_block block disk).1
              ≡ ok ((view disk).transfer_blocks ++ block ∷ []))
    finalised_on_file a disk v collecting some_signed augmented healthy =
        let (block, ends, verifies, _, _) =
          finalise-verifies a v collecting some_signed augmented in
        let readable = finalised-IsAugmented a augmented ends in
        let (simulates, reads) = stored_block block disk healthy readable in
        (block, ends, verifies, simulates, reads)
