-- ===== src/Wallet/Utils/Merge.antt =====
-- What `merge_balance_proofs` (src/wallet/utils.rs) keeps.
use stateless_payments.Common.{◌≡◌, none, some, [], ◌∷◌, arith, Bool-cases, inl, inr}
use stateless_payments.Common.Assoc.{
  lookup, contains_key, insert, lookup-insert, IsMap, insert-IsMap,
}
use stateless_payments.External.Bls.{Bls}
use stateless_payments.Types.Balance.{BalanceProofKey, BalanceProof, key_eq_iff, key_Eq}
use stateless_payments.Wallet.Utils.{merge_into}

module _ ⦃b : Bls⦄ where
  -- A merged proof holds what the current one holds, and under every other key what the sender's
  -- holds.
  pub lookup-merge_into :
      (q : BalanceProofKey) (current sender : BalanceProof)
      → lookup q (merge_into current sender)
        ≡ elim (lookup q current) [ none ↦ lookup q sender | some proof ↦ some proof ]
  unfolding merge_into
  lookup-merge_into q current [] = ground arith
  lookup-merge_into q current ((k, v) ∷ sender) = ground (
    arith,
    key_eq_iff q k,
    lookup-insert k q v current,
    lookup-merge_into q current sender,
    lookup-merge_into q (insert k v current) sender,
  )

  -- No key is listed twice.
  merge_into-IsMap :
      (current sender : BalanceProof) → IsMap current → IsMap (merge_into current sender)
  unfolding merge_into
  merge_into-IsMap current [] h = h
  merge_into-IsMap current ((k, v) ∷ sender) h = elim (Bool-cases (contains_key k current)) [
    | inl old ↦ rw old (merge_into-IsMap current sender h)
    | inr new ↦ rw new (merge_into-IsMap (insert k v current) sender (insert-IsMap k v current h))
  ]
