-- ===== src/External/RsMerkle.antt =====
-- The crate `rs_merkle`: `MerkleTree` and `MerkleProof` over a hash function.
use stateless_payments.Common.{
  Bytes, ℕ, ◌≡◌, ◌≢◌, Bool, true, Option, some, List, [], ◌∷◌, ◌++◌, length, get_elem?,
}

pub record RsMerkle (hash : Bytes → Bytes) : Type 1 where
  pub MerkleTree : Type 0
  pub new : MerkleTree
  pub insert : Bytes → MerkleTree → MerkleTree
  pub commit : MerkleTree → MerkleTree
  -- The committed leaves, and those that wait for a commit.
  pub leaves : MerkleTree → List Bytes
  pub uncommitted : MerkleTree → List Bytes
  pub leaves_len : MerkleTree → ℕ
  pub root : MerkleTree → Option Bytes
  -- `tree.proof(indices).proof_hashes()`
  pub proof_hashes : MerkleTree → List ℕ → List Bytes
  -- `MerkleProof::new(hashes).verify(root, indices, leaf_hashes, total_leaves)`
  pub verify : List Bytes → Bytes → List ℕ → List Bytes → ℕ → Bool
  pub leaves-new : leaves new ≡ []
  pub uncommitted-new : uncommitted new ≡ []
  pub leaves-insert : (h : Bytes) (t : MerkleTree) → leaves (insert h t) ≡ leaves t
  pub uncommitted-insert :
      (h : Bytes) (t : MerkleTree) → uncommitted (insert h t) ≡ uncommitted t ++ h ∷ []
  pub leaves-commit : (t : MerkleTree) → leaves (commit t) ≡ leaves t ++ uncommitted t
  pub uncommitted-commit : (t : MerkleTree) → uncommitted (commit t) ≡ []
  pub leaves_len_lem : (t : MerkleTree) → leaves_len t ≡ length (leaves t)
  pub root_some : (t : MerkleTree) → leaves t ≢ [] → (r : Bytes) × (root t ≡ some r)
  -- The proof of a committed leaf verifies against the root.
  pub verify-proof_hashes :
      (t : MerkleTree) (i : ℕ) (h r : Bytes)
      → get_elem? (leaves t) i ≡ some h
      → root t ≡ some r
      → verify (proof_hashes t (i ∷ [])) r (i ∷ []) (h ∷ []) (leaves_len t) ≡ true
