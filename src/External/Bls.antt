-- ===== src/External/Bls.antt =====
-- The crate `blsful` at `Bls12381G1Impl`: keys, signatures and aggregate signatures.
use stateless_payments.Common.{Bytes, Eq, ◌≡◌, ◌≤◌, List, map, All, length}
use stateless_payments.Common.Outcome.{Result, ok}

pub record Bls : Type 1 where
  pub PublicKey : Type 0
  pub SecretKey : Type 0
  pub Signature : Type 0
  pub AggregateSignature : Type 0
  pub BlsError : Type 0
  pub public_key_eq : Eq PublicKey
  pub signature_eq : Eq Signature
  pub aggregate_eq : Eq AggregateSignature
  pub to_string : PublicKey → Bytes
  pub public_key : SecretKey → PublicKey
  -- `SecretKey::sign` with the scheme `MessageAugmentation`.
  pub sign : SecretKey → Bytes → Result BlsError Signature
  pub verify : Signature → PublicKey → Bytes → Result BlsError (Unit {0})
  pub from_signatures : List Signature → Result BlsError AggregateSignature
  pub aggregate_verify : AggregateSignature → List (PublicKey × Bytes) → Result BlsError (Unit {0})
  -- The signature is of the scheme `MessageAugmentation`.
  pub IsAugmented : Signature → Type 0
  pub IsAugmentedAggregate : AggregateSignature → Type 0
  -- The text of a key is the hexadecimal of its bytes.
  pub to_string_injective : (p q : PublicKey) → to_string p ≡ to_string q → p ≡ q
  pub verify-sign :
      (sk : SecretKey) (m : Bytes) (s : Signature)
      → sign sk m ≡ ok s
      → verify s (public_key sk) m ≡ ok tt
  pub sign-IsAugmented :
      (sk : SecretKey) (m : Bytes) (s : Signature) → sign sk m ≡ ok s → IsAugmented s
  -- In that scheme the aggregate of signatures over one message, each of which verifies, verifies.
  pub aggregate_verify-from_signatures :
      (m : Bytes) (signed : List (PublicKey × Signature)) (a : AggregateSignature)
      → from_signatures (map (λ ps. ps.1) signed) ≡ ok a
      → All (λ ps. (verify ps.1 ps.0 m ≡ ok tt) × IsAugmented ps.1) signed
      → aggregate_verify a (map (λ ps. (ps.0, m)) signed) ≡ ok tt
  -- The aggregate is of the scheme of its signatures.
  pub from_signatures-IsAugmented :
      (ss : List Signature) (a : AggregateSignature)
      → from_signatures ss ≡ ok a
      → All IsAugmented ss
      → IsAugmentedAggregate a
  -- Two or more signatures of that scheme can be aggregated.
  pub from_signatures_total :
      (ss : List Signature)
      → 2 ≤ length ss
      → All IsAugmented ss
      → (a : AggregateSignature) × (from_signatures ss ≡ ok a)
