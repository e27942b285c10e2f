-- ===== src/Aggregator/Invariant.antt =====
-- The invariant of an aggregator (src/aggregator.rs): its map, its tree and its signatures agree.
use stateless_payments.Common.{
  Bytes, ◌≡◌, refl, ap, ◌∙◌, Option, none, some, [], ◌∷◌, ◌++◌, All, All-append, Option-cases, inl,
  inr, arith, length,
}
use stateless_payments.Common.Assoc.{IsMap, insert_new, insert-IsMap, modify-IsMap, lookup}
use stateless_payments.Common.Outcome.{ok, on_ok_elim}
use stateless_payments.External.Bls.{Bls}
use stateless_payments.External.Sha2.{Sha256}
use stateless_payments.External.RsMerkle.{RsMerkle}
use stateless_payments.External.IndexMap.{IndexMap}
use stateless_payments.Types.PublicKey.{BlsPublicKeyWrapper, wrap, wrapper_Eq}
use stateless_payments.Types.Transaction.{
  TransactionBatch, SerdeTransaction, sha256_algorithm_hash, batch_tx_hash,
}
use stateless_payments.Types.TransferBlock.{TransferBlock}
use stateless_payments.Aggregator.{
  TxMetadata, AggregatorState, opened, collect_signatures, finalised, Aggregator, new, new_metadata,
  set_signature, can_start, can_add_batch, can_add_signature, start_collecting_signatures,
  add_batch, add_signature, finalise, transfer_block_of,
}
use stateless_payments.Aggregator.Entries.{
  Entries, Indexed, SignedUnder, Indexed-append, Indexed-modify, unsigned-SignedUnder,
  SignedUnder-modify, hashes, hashes-append, length-hashes, hashes-modify,
}

module _ ⦃b : Bls⦄ where
  -- The root that signatures are for: there is none while batches still come in.
  abbrev pub signing_root : AggregatorState → Option Bytes → Option Bytes
  signing_root opened r = none
  signing_root collect_signatures r = r
  signing_root (finalised block) r = r

module _ ⦃b : Bls⦄ ⦃s : Sha256⦄ ⦃j : SerdeTransaction⦄ ⦃m : RsMerkle sha256_algorithm_hash⦄
    ⦃im : IndexMap BlsPublicKeyWrapper TxMetadata⦄ where
  abbrev pub entries_of : Aggregator → Entries
  entries_of a = im.entries a.tx_hash_to_metadata

  pub record IsValid (a : Aggregator) : Type 0 where
    -- Every leaf is committed, and the leaves are the hashes of the batches in order.
    pub sealed : m.uncommitted a.merkle_tree ≡ []
    pub leaves : m.leaves a.merkle_tree ≡ hashes (entries_of a)
    pub indexed : Indexed 0 (entries_of a)
    -- One batch for each sender.
    pub distinct : IsMap (entries_of a)
    pub signed : All (SignedUnder (signing_root a.state (m.root a.merkle_tree))) (entries_of a)

  pub can_start-opened : (a : Aggregator) → can_start a ≡ ok tt → a.state ≡ opened
  unfolding can_start
  can_start-opened a h = ground arith

  pub can_add_batch_inv :
      (batch : TransactionBatch) (a : Aggregator)
      → can_add_batch batch a ≡ ok tt
      → (a.state ≡ opened) × (lookup (wrap batch.from) (entries_of a) ≡ none)
  unfolding can_add_batch
  can_add_batch_inv batch a h = ground (arith, im.get_lem (wrap batch.from) a.tx_hash_to_metadata)

  pub can_add_signature_inv :
      (pk : b.PublicKey) (signature : b.Signature) (a : Aggregator) {md : TxMetadata}
      → can_add_signature pk signature a ≡ ok md
      → (r : Bytes) × (a.state ≡ collect_signatures)
        × (m.root a.merkle_tree ≡ some r)
        × (b.verify signature pk r ≡ ok tt)
        × (lookup (wrap pk) (entries_of a) ≡ some md)
  unfolding can_add_signature
  can_add_signature_inv pk signature a h = elim (Option-cases (m.root a.merkle_tree)) [
    | inl e ↦ ground arith
    | inr (r, e) ↦ (
      r,
      ground arith,
      e,
      ground arith,
      ground (arith, im.get_lem (wrap pk) a.tx_hash_to_metadata),
    )
  ]

  -- A new aggregator is valid.
  pub new-IsValid : (salt : Bytes) → IsValid (new salt)
  unfolding new
  new-IsValid salt = record {
    sealed = m.uncommitted-new;
    leaves = rw (im.entries-new) m.leaves-new;
    indexed = rw (im.entries-new) tt;
    distinct = rw (im.entries-new) tt;
    signed = rw (im.entries-new) tt;
  }

  pub start_collecting_signatures-IsValid :
      (a : Aggregator) → IsValid a → IsValid (start_collecting_signatures a).1
  unfolding start_collecting_signatures
  start_collecting_signatures-IsValid a v =
      on_ok_elim (λ x. IsValid x.1) (can_start a) a _ (λ e. v) v
        λ _ h. record {
          sealed = v.sealed;
          leaves = v.leaves;
          indexed = v.indexed;
          distinct = v.distinct;
          signed = unsigned-SignedUnder _ (entries_of a) (rw (can_start-opened a h) at (v.signed));
        }

  module _ (a : Aggregator) (v : IsValid a) (batch : TransactionBatch)
      (fresh : lookup (wrap batch.from) (entries_of a) ≡ none) where
    abbrev grown : m.MerkleTree
    grown = m.commit (m.insert (batch_tx_hash batch) a.merkle_tree)

    entries-grown :
        im.entries (im.insert (wrap batch.from) (new_metadata batch a) a.tx_hash_to_metadata)
        ≡ entries_of a ++ (wrap batch.from, (new_metadata batch a)) ∷ []
    entries-grown =
        im.entries-insert (wrap batch.from) (new_metadata batch a) a.tx_hash_to_metadata
        ∙ insert_new (wrap batch.from) (new_metadata batch a) (entries_of a) fresh

    leaves-grown : m.leaves grown ≡ hashes (entries_of a) ++ batch_tx_hash batch ∷ []
    leaves-grown = rw (
      m.leaves-commit (m.insert (batch_tx_hash batch) a.merkle_tree),
      m.leaves-insert (batch_tx_hash batch) a.merkle_tree,
      m.uncommitted-insert (batch_tx_hash batch) a.merkle_tree,
      v.sealed,
      v.leaves,
    )

    number : m.leaves_len a.merkle_tree ≡ length (entries_of a)
    number = m.leaves_len_lem a.merkle_tree ∙ ap length v.leaves ∙ length-hashes (entries_of a)

  pub add_batch-IsValid :
      (batch : TransactionBatch) (a : Aggregator) → IsValid a → IsValid (add_batch batch a).1
  unfolding add_batch
  add_batch-IsValid batch a v =
      on_ok_elim (λ x. IsValid x.1) (can_add_batch batch a) a _ (λ e. v) v
        λ _ h.
          let (o, fresh) = can_add_batch_inv batch a h in
          let grow = entries-grown a v batch fresh in
          record {
            sealed = m.uncommitted-commit _;
            leaves =
                rw (grow, hashes-append (entries_of a) (wrap batch.from) (new_metadata batch a))
                  (leaves-grown a v batch fresh);
            indexed = rw grow (
                Indexed-append 0 (entries_of a) (new_metadata batch a) v.indexed
                  (omega (arith, number a v batch fresh)));
            distinct =
                rw
                  (im.entries-insert (wrap batch.from) (new_metadata batch a) a.tx_hash_to_metadata)
                  (insert-IsMap (wrap batch.from) (new_metadata batch a) (entries_of a) v.distinct);
            signed =
                rw (o, grow)
                  (All-append (SignedUnder none) (entries_of a) _ (rw o at (v.signed)) (refl, tt));
          }

  pub add_signature-IsValid :
      (pk : b.PublicKey) (signature : b.Signature) (a : Aggregator)
      → IsValid a
      → IsValid (add_signature pk signature a).1
  unfolding add_signature
  add_signature-IsValid pk signature a v =
      on_ok_elim (λ x. IsValid x.1) (can_add_signature pk signature a) a _ (λ e. v) v
        λ _ h.
          let (r, collecting, has_root, verified, _) = can_add_signature_inv pk signature a h in
          let changed =
            im.entries-modify (wrap pk) (set_signature signature) a.tx_hash_to_metadata in
          let old : All (SignedUnder (some r)) (entries_of a) =
            rw (collecting, has_root) at (v.signed) in
          record {
            sealed = v.sealed;
            leaves = rw (changed, hashes-modify (wrap pk) signature (entries_of a)) v.leaves;
            indexed = rw changed (Indexed-modify 0 (wrap pk) signature (entries_of a) v.indexed);
            distinct =
                rw changed
                  (modify-IsMap (wrap pk) (set_signature signature) (entries_of a) v.distinct);
            signed =
                rw (collecting, has_root, changed)
                  (SignedUnder-modify 0 r pk signature (entries_of a) v.indexed verified old);
          }

  transfer_block_of-collecting :
      (a : Aggregator) {block : TransferBlock}
      → transfer_block_of a ≡ ok block
      → a.state ≡ collect_signatures
  unfolding transfer_block_of
  transfer_block_of-collecting a h = ground arith

  pub finalise-IsValid : (a : Aggregator) → IsValid a → IsValid (finalise a).1
  unfolding finalise
  finalise-IsValid a v =
      on_ok_elim (λ x. IsValid x.1) (transfer_block_of a) a _ (λ e. v) v
        λ block h. record {
          sealed = v.sealed;
          leaves = v.leaves;
          indexed = v.indexed;
          distinct = v.distinct;
          signed = rw (transfer_block_of-collecting a h) at (v.signed);
        }
