-- ===== src/Flow/Confirm.antt =====
-- A finalised block on the rollup confirms the proofs of its signers (src/wallet/utils.rs against
-- src/aggregator.rs and src/rollup).
use stateless_payments.Common.{
  bytes_eq_iff, ◌≡◌, subst, Bool, true, Option, none, some, List, [], ◌∷◌, ◌++◌, All, All-append,
  arith, Bool-cases, inl, inr, find, any, map, ◌≢◌, ◌==◌,
}
use stateless_payments.Common.Outcome.{ok, err}
use stateless_payments.External.Bls.{Bls}
use stateless_payments.External.Sha2.{Sha256}
use stateless_payments.External.RsMerkle.{RsMerkle}
use stateless_payments.Types.Transaction.{
  TransactionProof, SerdeTransaction, sha256_algorithm_hash, verify_proof,
}
use stateless_payments.External.IndexMap.{IndexMap}
use stateless_payments.Types.PublicKey.{BlsPublicKeyWrapper, wrap, wrapper_Eq}
use stateless_payments.Aggregator.{
  TxMetadata, collect_signatures, finalised, Aggregator, root, finalise,
}
use stateless_payments.Aggregator.Invariant.{IsValid, entries_of}
use stateless_payments.Aggregator.Finalise.{signers, finalise-verifies}
use stateless_payments.Types.Errors.{crate_error, batch_not_in_a_transfer_block}
use stateless_payments.Types.TransferBlock.{TransferBlock, verify_block}
use stateless_payments.Rollup.Traits.{is_block_for, get_transfer_block_for_merkle_root_and_pubkey}
use stateless_payments.Rollup.Memory.{MockRollupMemory, add_transfer_block, memory_trait}
use stateless_payments.Wallet.Utils.{check_proof}

find-All :
    {A : Type 0} (P : A → Type 0) (test : A → Bool) (xs : List A) {x : A}
    → All P xs
    → find test xs ≡ some x
    → P x
find-All P test [] all h = absurd (cc)
find-All P test (y ∷ xs) {x} all h = elim (Bool-cases (test y)) [
  | inl here ↦ subst P (some_inj (rw here at h)) all.0
  | inr there ↦ find-All P test xs {x = x} all.1 (rw there at h)
]
  where
    some_inj : some y ≡ some x → y ≡ x
    some_inj e = cc

any-nonempty : {A : Type 0} (test : A → Bool) (xs : List A) → any test xs ≡ true → xs ≢ []
any-nonempty test [] h e = cc
any-nonempty test (x ∷ xs) h e = cc

-- What is found among a list that ends in a hit.
find_last :
    {A : Type 0} (test : A → Bool) (xs : List A) (y : A)
    → test y ≡ true
    → (x : A) × (find test (xs ++ y ∷ []) ≡ some x)
find_last test [] y h = (y, rw h)
find_last test (x ∷ xs) y h = elim (Bool-cases (test x)) [
  | inl here ↦ (x, rw here)
  | inr there ↦ let (z, found) = find_last test xs y h in (z, rw there found)
]

module _ ⦃b : Bls⦄ ⦃s : Sha256⦄ ⦃j : SerdeTransaction⦄ ⦃m : RsMerkle sha256_algorithm_hash⦄ where
  -- Every block on the rollup verifies.
  abbrev pub IsSigned : MockRollupMemory → Type 0
  IsSigned rollup = All (λ block. verify_block block ≡ ok tt) rollup.transfer_blocks

  add_transfer_block-IsSigned :
      (rollup : MockRollupMemory) (block : TransferBlock)
      → IsSigned rollup
      → verify_block block ≡ ok tt
      → IsSigned (add_transfer_block block rollup).1
  add_transfer_block-IsSigned rollup block v e =
      All-append (λ x. verify_block x ≡ ok tt) rollup.transfer_blocks (block ∷ []) v (e, tt)

  -- Where every block verifies, a proof is confirmed exactly if it verifies and there is a block over
  -- its root with its sender; if there is none, the error names the batch.
  check_proof_lem :
      (rollup : MockRollupMemory) (p : TransactionProof) (found : Option TransferBlock)
      → IsSigned rollup
      → verify_proof p ≡ true
      → find (is_block_for p.root p.batch.from) rollup.transfer_blocks ≡ found
      → check_proof rollup p ≡ elim found [
        | none ↦ err (crate_error (batch_not_in_a_transfer_block p.batch))
        | some block ↦ ok tt
      ]
  unfolding check_proof get_transfer_block_for_merkle_root_and_pubkey
  check_proof_lem rollup p none v included h = ground arith
  check_proof_lem rollup p (some block) v included h =
      let signed =
        find-All (λ x. verify_block x ≡ ok tt) (is_block_for p.root p.batch.from)
          rollup.transfer_blocks {x = block} v h in
      ground (arith, signed)

  -- A valid aggregator that collects signatures, all of the wallets' scheme, and a contract whose
  -- blocks all verify: once the round is finalised and its block is on the contract, every verified
  -- proof under the round's root whose sender signed is confirmed, and every block still verifies.
  pub finalised_confirms :
      ⦃im : IndexMap BlsPublicKeyWrapper TxMetadata⦄ (a : Aggregator) (rollup : MockRollupMemory)
      (p : TransactionProof)
      → IsValid a
      → a.state ≡ collect_signatures
      → All b.IsAugmented (map (λ x. x.1) (signers (entries_of a)))
      → IsSigned rollup
      → verify_proof p ≡ true
      → root a ≡ ok p.root
      → any (λ v. wrap v.0 == wrap p.batch.from) (signers (entries_of a)) ≡ true
      → (block : TransferBlock) × (finalise a ≡ (ok block, record a { state = finalised block }))
        × (check_proof (add_transfer_block block rollup).1 p ≡ ok tt)
        × IsSigned (add_transfer_block block rollup).1
  finalised_confirms a rollup p v collecting augmented signed included at_root signer =
      let (block, done, verified, has_root, contains) =
        finalise-verifies a v collecting (any-nonempty _ (signers (entries_of a)) signer)
          augmented in
      let still = add_transfer_block-IsSigned rollup block signed verified in
      let named : is_block_for p.root p.batch.from block ≡ true =
        ground (arith, bytes_eq_iff block.merkle_root p.root, contains p.batch.from) in
      let (earlier, found) =
        find_last (is_block_for p.root p.batch.from) rollup.transfer_blocks block named in
      (
        block,
        done,
        check_proof_lem (add_transfer_block block rollup).1 p (some earlier) still included found,
        still,
      )
