-- ===== src/Websocket/Posting.antt =====
-- A server's round that some wallet signed ends in a block on the contract
-- (src/websocket/server/server_state.rs).
use stateless_payments.Common.{
  Bytes, Bool, true, some, List, [], ◌∷◌, map, ◌≡◌, ◌≢◌, ◌∙◌, arith, ◌==◌, Bool-cases, inl, inr,
  Option-cases,
}
use stateless_payments.Common.Assoc.{lookup}
use stateless_payments.Common.Outcome.{ok}
use stateless_payments.External.Bls.{Bls}
use stateless_payments.External.Sha2.{Sha256}
use stateless_payments.External.RsMerkle.{RsMerkle}
use stateless_payments.External.IndexMap.{IndexMap}
use stateless_payments.External.Tungstenite.{Tungstenite}
use stateless_payments.Types.PublicKey.{BlsPublicKeyWrapper, wrap, wrapper_Eq}
use stateless_payments.Types.Transaction.{SerdeTransaction, sha256_algorithm_hash}
use stateless_payments.Aggregator.{
  Aggregator, TxMetadata, opened, collect_signatures, new_metadata, set_signature, can_start,
  can_add_batch, can_add_signature, transfer_block_of,
}
use stateless_payments.Aggregator
use stateless_payments.Websocket.ServerState.{ServerState, finalise}
use stateless_payments.Common.{any, All}
use stateless_payments.Types.PublicKey.{eq_iff}
use stateless_payments.Types.TransferBlock.{TransferBlock, verify_block, contains_pubkey}
use stateless_payments.Aggregator.{signatures_and_public_keys}
use stateless_payments.Aggregator.Entries.{Entries, Indexed-lookup}
use stateless_payments.Aggregator.Invariant.{entries_of}
use stateless_payments.Aggregator.Finalise.{signers, finalise-verifies}
use stateless_payments.Rollup.Memory.{MockRollupMemory, memory_trait}
use stateless_payments.Rollup.Memory
use stateless_payments.Websocket.ServerState.InStep.{IsInStep}

module _ ⦃b : Bls⦄ where
  signed_entry :
      (k : BlsPublicKeyWrapper) (es : Entries) {md : TxMetadata} (signature : b.Signature)
      → lookup k es ≡ some md
      → md.signature ≡ some signature
      → wrap md.batch.from ≡ k
      → any (λ v. wrap v.0 == k) (signers es) ≡ true
  unfolding signatures_and_public_keys
  signed_entry k [] signature found signed owner = absurd (cc)
  signed_entry k ((i, x) ∷ es) {md} signature found signed owner = elim (Bool-cases (k == i)) [
    | inl first ↦ ground (arith, eq_iff (wrap md.batch.from) k)
    | inr later ↦
        let rest = signed_entry k es {md = md} signature (ground arith) signed owner in ground arith
  ]

  any_nonempty : {A : Type 0} (test : A → Bool) (xs : List A) → any test xs ≡ true → xs ≢ []
  any_nonempty test [] h e = cc
  any_nonempty test (x ∷ xs) h e = cc

module _ ⦃b : Bls⦄ ⦃s : Sha256⦄ ⦃j : SerdeTransaction⦄ ⦃m : RsMerkle sha256_algorithm_hash⦄
    ⦃im : IndexMap BlsPublicKeyWrapper TxMetadata⦄ ⦃ws : Tungstenite⦄ where
  flagged_signer :
      (k : BlsPublicKeyWrapper) (x : ServerState MockRollupMemory)
      → IsInStep x
      → lookup k x.connections_with_tx ≡ some true
      → any (λ v. wrap v.0 == k) (signers (entries_of x.aggregator)) ≡ true
  flagged_signer k x v flagged = elim (Option-cases (lookup k (entries_of x.aggregator))) [
    | inl missing ↦ absurd (ground (arith, v.tracked k))
    | inr (md, found) ↦
        let (_, _, _, owner) = Indexed-lookup 0 k (entries_of x.aggregator) v.valid.indexed found in
        elim (Option-cases md.signature) [
          | inl unsigned ↦ absurd (ground (arith, v.tracked k))
          | inr (signature, signed) ↦
              signed_entry k (entries_of x.aggregator) {md = md} signature found signed owner
        ]
  ]

  -- On a server with the contract in memory that collects signatures, whose table and aggregator
  -- agree: if the table says that a key signed, and all signatures are of the wallets' scheme,
  -- finalising posts a block that verifies and contains the key, and opens a new round.
  pub finalise_posts :
      (salt : Bytes) (pk : b.PublicKey) (x : ServerState MockRollupMemory)
      → IsInStep x
      → x.aggregator.state ≡ collect_signatures
      → lookup (wrap pk) x.connections_with_tx ≡ some true
      → All b.IsAugmented (map (λ v. v.1) (signers (entries_of x.aggregator)))
      → (block : TransferBlock) × (finalise salt x ≡ (
        ok tt,
        record x {
          connections_with_tx = [];
          aggregator = Aggregator.new salt;
          rollup_state = (Memory.add_transfer_block block x.rollup_state).1;
        },
      ))
        × (verify_block block ≡ ok tt)
        × (contains_pubkey block pk ≡ true)
  unfolding finalise
  finalise_posts salt pk x v collecting flagged augmented =
      let signer = flagged_signer (wrap pk) x v flagged in
      let (block, made, verified, _, contains) =
        finalise-verifies x.aggregator v.valid collecting
          (any_nonempty _ (signers (entries_of x.aggregator)) signer) augmented in
      (block, ground (arith, made), verified, contains pk ∙ signer)
