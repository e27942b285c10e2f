-- ===== src/Aggregator/Entries.antt =====
-- The entries of an aggregator's map: their order, their hashes and their signatures.
use stateless_payments.Common.{
  ℕ, suc, ◌+◌, Bytes, ◌≡◌, refl, ap, Option, none, some, List, [], ◌∷◌, ◌++◌, map, All, length,
  get_elem?, arith, Bool-cases, inl, inr, ◌==◌,
}
use stateless_payments.Common.Assoc.{lookup, modify}
use stateless_payments.Common.Outcome.{ok}
use stateless_payments.External.Bls.{Bls}
use stateless_payments.External.Sha2.{Sha256}
use stateless_payments.Types.PublicKey.{BlsPublicKeyWrapper, wrap, eq_iff, wrapper_Eq}
use stateless_payments.Types.Transaction.{SerdeTransaction, batch_tx_hash}
use stateless_payments.Aggregator.{TxMetadata, signatures_and_public_keys, set_signature}

module _ ⦃b : Bls⦄ where
  abbrev pub Entries : Type 0
  Entries = List (BlsPublicKeyWrapper × TxMetadata)

  -- The entries are numbered from `n` on, and each stands under its batch's sender.
  abbrev pub Indexed : ℕ → Entries → Type 0
  Indexed n [] = Unit
  Indexed n ((k, md) ∷ es) = (md.index ≡ n) × (k ≡ wrap md.batch.from) × Indexed (suc n) es

  -- A signature, if there is one, verifies over the root; without a root there is none.
  abbrev pub SignedUnder : Option Bytes → BlsPublicKeyWrapper × TxMetadata → Type 0
  SignedUnder none kv = kv.1.signature ≡ none
  SignedUnder (some r) kv = elim kv.1.signature [
    | none ↦ Unit
    | some signature ↦ b.verify signature kv.1.batch.from r ≡ ok tt
  ]

  pub Indexed-append :
      (n : ℕ) (es : Entries) (md : TxMetadata)
      → Indexed n es
      → md.index ≡ n + length es
      → Indexed n (es ++ (wrap md.batch.from, md) ∷ [])
  Indexed-append n [] md h e = (omega arith, refl, tt)
  Indexed-append n (x ∷ es) md h e = (h.0, h.1, Indexed-append (suc n) es md h.2 (omega arith))

  pub Indexed-modify :
      (n : ℕ) (k : BlsPublicKeyWrapper) (signature : b.Signature) (es : Entries)
      → Indexed n es
      → Indexed n (modify k (set_signature signature) es)
  Indexed-modify n k signature [] h = tt
  Indexed-modify n k signature (x ∷ es) h =
      ground (arith, Indexed-modify (suc n) k signature es h.2)

  pub unsigned-SignedUnder :
      (r : Option Bytes) (es : Entries) → All (SignedUnder none) es → All (SignedUnder r) es
  unsigned-SignedUnder none es h = h
  unsigned-SignedUnder (some r) [] h = tt
  unsigned-SignedUnder (some r) (x ∷ es) h = ground (arith, unsigned-SignedUnder (some r) es h.1)

  -- A signature that verifies for a key may be stored under that key.
  pub SignedUnder-modify :
      (n : ℕ) (r : Bytes) (pk : b.PublicKey) (signature : b.Signature) (es : Entries)
      → Indexed n es
      → b.verify signature pk r ≡ ok tt
      → All (SignedUnder (some r)) es
      → All (SignedUnder (some r)) (modify (wrap pk) (set_signature signature) es)
  SignedUnder-modify n r pk signature [] ix v h = tt
  SignedUnder-modify n r pk signature ((k, md) ∷ es) ix v h =
      ground (arith, eq_iff (wrap pk) k, SignedUnder-modify (suc n) r pk signature es ix.2 v h.1)

  pub signed_pairs :
      (r : Bytes) (es : Entries)
      → All (SignedUnder (some r)) es
      → All (λ ps. b.verify ps.1 ps.0 r ≡ ok tt) (signatures_and_public_keys (map (λ kv. kv.1) es))
  unfolding signatures_and_public_keys
  signed_pairs r [] h = tt
  signed_pairs r (x ∷ es) h = ground (arith, signed_pairs r es h.1)

module _ ⦃b : Bls⦄ ⦃s : Sha256⦄ ⦃j : SerdeTransaction⦄ where
  -- The leaf of each entry.
  abbrev pub hashes : Entries → List Bytes
  hashes [] = []
  hashes ((k, md) ∷ es) = batch_tx_hash md.batch ∷ hashes es

  pub hashes-append :
      (es : Entries) (k : BlsPublicKeyWrapper) (md : TxMetadata)
      → hashes (es ++ (k, md) ∷ []) ≡ hashes es ++ batch_tx_hash md.batch ∷ []
  hashes-append [] k md = refl
  hashes-append (x ∷ es) k md = ap (λ r. batch_tx_hash x.1.batch ∷ r) (hashes-append es k md)

  pub length-hashes : (es : Entries) → length (hashes es) ≡ length es
  length-hashes [] = refl
  length-hashes (x ∷ es) = ap suc (length-hashes es)

  pub hashes-modify :
      (k : BlsPublicKeyWrapper) (signature : b.Signature) (es : Entries)
      → hashes (modify k (set_signature signature) es) ≡ hashes es
  hashes-modify k signature [] = refl
  hashes-modify k signature (x ∷ es) = ground (arith, hashes-modify k signature es)

  -- The metadata under a key is that of the key's batch, whose hash stands at its index.
  pub Indexed-lookup :
      (n : ℕ) (k : BlsPublicKeyWrapper) (es : Entries) {md : TxMetadata}
      → Indexed n es
      → lookup k es ≡ some md
      → (i : ℕ) × (md.index ≡ n + i)
        × (get_elem? (hashes es) i ≡ some (batch_tx_hash md.batch))
        × (wrap md.batch.from ≡ k)
  Indexed-lookup n k [] ix e = cc
  Indexed-lookup n k ((k', md') ∷ es) {md} ix e = elim (Bool-cases (k == k')) [
    | inl here ↦
        (0, ground (arith, eq_iff k k'), ground (arith, eq_iff k k'), ground (arith, eq_iff k k'))
    | inr there ↦
        let (i, number, leaf, owner) = Indexed-lookup (suc n) k es {md = md} ix.2 (ground arith) in
        (suc i, omega arith, leaf, owner)
  ]
