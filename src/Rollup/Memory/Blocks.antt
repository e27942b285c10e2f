-- ===== src/Rollup/Memory/Blocks.antt =====
-- The transfer blocks of a rollup, as wallets ask for them (src/rollup/traits.rs).
use stateless_payments.Common.{
  Bytes, ◌≡◌, refl, Bool, true, Option, none, some, List, [], ◌∷◌, ◌++◌, find, filter,
  if◌then◌else◌, arith, bytes_eq_iff,
}
use stateless_payments.Common.Outcome.{ok}
use stateless_payments.External.Bls.{Bls}
use stateless_payments.Types.TransferBlock.{TransferBlock, contains_pubkey}
use stateless_payments.Rollup.Traits.{
  is_block_for, get_account_transfer_blocks, get_transfer_block_for_merkle_root_and_pubkey,
}
use stateless_payments.Rollup.Memory.{MockRollupMemory, add_transfer_block, memory_trait}

find-append {ℓ} :
    {A : Type ℓ} (test : A → Bool) (xs : List A) (y : A)
    → find test (xs ++ y ∷ [])
      ≡ elim (find test xs) [ none ↦ if test y then some y else none | some x ↦ some x ]
find-append test [] y = refl
find-append test (x ∷ xs) y = ground (arith, find-append test xs y)

find-test {ℓ} :
    {A : Type ℓ} (test : A → Bool) (xs : List A) {y : A} → find test xs ≡ some y → test y ≡ true
find-test test [] h = cc
find-test test (x ∷ xs) {y} h = ground (arith, find-test test xs {y = y})

filter-append {ℓ} :
    {A : Type ℓ} (test : A → Bool) (xs : List A) (y : A)
    → filter test (xs ++ y ∷ []) ≡ filter test xs ++ (if test y then y ∷ [] else [])
filter-append test [] y = ground arith
filter-append test (x ∷ xs) y = ground (arith, filter-append test xs y)

module _ ⦃b : Bls⦄ where
  -- The block that is found for a root and a key is over that root and contains that key.
  found_block_lem :
      (root : Bytes) (pk : b.PublicKey) (s : MockRollupMemory) (block : TransferBlock)
      → get_transfer_block_for_merkle_root_and_pubkey root pk s ≡ ok (some block)
      → (block.merkle_root ≡ root) × (contains_pubkey block pk ≡ true)
  unfolding get_transfer_block_for_merkle_root_and_pubkey
  found_block_lem root pk s block h =
      let passed = find-test (is_block_for root pk) s.transfer_blocks {y = block} (ground arith) in
      ground (arith, bytes_eq_iff block.merkle_root root)

  -- A block that is added is found for its root and for each key that it contains, unless an
  -- earlier block is, which stays the answer; all other answers stay.
  pub found_after_add :
      (root : Bytes) (pk : b.PublicKey) (s : MockRollupMemory) (block : TransferBlock)
      (answer : Option TransferBlock)
      → get_transfer_block_for_merkle_root_and_pubkey root pk s ≡ ok answer
      → get_transfer_block_for_merkle_root_and_pubkey root pk (add_transfer_block block s).1
        ≡ ok (elim answer [
          | none ↦ if is_block_for root pk block then some block else none
          | some earlier ↦ some earlier
        ])
  unfolding get_transfer_block_for_merkle_root_and_pubkey
  found_after_add root pk s block answer h =
      ground (arith, find-append (is_block_for root pk) s.transfer_blocks block)

  -- The blocks of an account are those of before, and the new one if it contains the account.
  account_blocks_after_add :
      (pk : b.PublicKey) (s : MockRollupMemory) (block : TransferBlock)
      (blocks : List TransferBlock)
      → get_account_transfer_blocks pk s ≡ ok blocks
      → get_account_transfer_blocks pk (add_transfer_block block s).1
        ≡ ok (blocks ++ (if contains_pubkey block pk then block ∷ [] else []))
  unfolding get_account_transfer_blocks
  account_blocks_after_add pk s block blocks h =
      ground (arith, filter-append (λ x. contains_pubkey x pk) s.transfer_blocks block)
