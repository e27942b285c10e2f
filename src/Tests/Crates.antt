-- ===== src/Tests/Crates.antt =====
-- Small instances of the interfaces of External and of the serialisers, for the tests.
use stateless_payments.Common.{
  ℕ, ◌≤◌, Bytes, bytes_eq, bytes_eq_iff, bytes_Eq, nat_eq, leb, ◌≡◌, ◌≢◌, ◌↔◌, refl, Bool, true,
  false, not, ◌&&◌, Option, none, some, List, [], ◌∷◌, ◌++◌, map, All, length, get_elem?,
  if◌then◌else◌, Eq, list_eq, list_eq_iff, arith,
}
use stateless_payments.Common.Assoc
use stateless_payments.Common.Outcome.{Result, ok, err, fail_if}
use stateless_payments.External.Bls.{Bls}
use stateless_payments.External.Sha2.{Sha256}
use stateless_payments.External.RsMerkle.{RsMerkle}
use stateless_payments.External.IndexMap.{IndexMap}
use stateless_payments.Types.PublicKey.{BlsPublicKeyWrapper, wrapper_Eq}
use stateless_payments.Types.Transaction.{SerdeTransaction, sha256_algorithm_hash}
use stateless_payments.Aggregator.{TxMetadata}

pub nat_eq_iff : (a b : ℕ) → (nat_eq a b ≡ true) ↔ (a ≡ b)
nat_eq_iff a b = ground arith

abbrev pub nat_Eq : Eq ℕ
nat_Eq = record { beq = nat_eq; beq_iff = nat_eq_iff }

-- A signature is the key that made it and the message.
abbrev pub ToySignature : Type 0
ToySignature = ℕ × Bytes

abbrev pub toy_signature_eq : ToySignature → ToySignature → Bool
toy_signature_eq x y = nat_eq x.0 y.0 && bytes_eq x.1 y.1

pub toy_signature_eq_iff : (x y : ToySignature) → (toy_signature_eq x y ≡ true) ↔ (x ≡ y)
toy_signature_eq_iff (k, m) (k', m') = ground (arith, bytes_eq_iff m m')

instance abbrev pub toy_signature_Eq : Eq ToySignature
toy_signature_Eq = record { beq = toy_signature_eq; beq_iff = toy_signature_eq_iff }

abbrev pub toy_verify : ToySignature → ℕ → Bytes → Result (Unit {0}) (Unit {0})
toy_verify x pk m = fail_if (not (toy_signature_eq x (pk, m))) tt

abbrev pub toy_from_signatures : List ToySignature → Result (Unit {0}) (List ToySignature)
toy_from_signatures ss = if leb 2 (length ss) then ok ss else err tt

abbrev pub all_match : List ToySignature → List (ℕ × Bytes) → Bool
all_match [] [] = true
all_match [] (p ∷ ps) = false
all_match (x ∷ xs) [] = false
all_match (x ∷ xs) (p ∷ ps) = toy_signature_eq x p && all_match xs ps

abbrev pub toy_sign : ℕ → Bytes → Result (Unit {0}) ToySignature
toy_sign sk m = ok (sk, m)

pub toy_verify-sign :
    (pk : ℕ) (m : Bytes) (x : ToySignature) → toy_sign pk m ≡ ok x → toy_verify x pk m ≡ ok tt
toy_verify-sign pk m x h = ground (arith, toy_signature_eq_iff x (pk, m))

pub toy_to_string_injective : (p q : ℕ) → p ∷ [] ≡ q ∷ [] → p ≡ q
toy_to_string_injective p q h = ground arith

pub toy_from_signatures_total :
    (ss : List ToySignature) → 2 ≤ length ss → toy_from_signatures ss ≡ ok ss
toy_from_signatures_total ss h = ground arith

abbrev pub toy_aggregate_verify :
    List ToySignature → List (ℕ × Bytes) → Result (Unit {0}) (Unit {0})
toy_aggregate_verify a ps = fail_if (not (all_match a ps)) tt

all_match-map :
    (m : Bytes) (signed : List (ℕ × ToySignature))
    → All (λ ps. (toy_verify ps.1 ps.0 m ≡ ok tt) × Unit {0}) signed
    → all_match (map (λ ps. ps.1) signed) (map (λ ps. (ps.0, m)) signed) ≡ true
all_match-map m [] h = refl
all_match-map m (x ∷ signed) h = ground (arith, all_match-map m signed h.1)

pub toy_aggregate_verifies :
    (m : Bytes) (signed : List (ℕ × ToySignature)) (a : List ToySignature)
    → toy_from_signatures (map (λ ps. ps.1) signed) ≡ ok a
    → All (λ ps. (toy_verify ps.1 ps.0 m ≡ ok tt) × Unit {0}) signed
    → toy_aggregate_verify a (map (λ ps. (ps.0, m)) signed) ≡ ok tt
toy_aggregate_verifies m signed a made valid = ground (arith, all_match-map m signed valid)

-- An aggregate of no signatures stands for one of another scheme.
abbrev pub is_filled : List ToySignature → Bool
is_filled [] = false
is_filled (x ∷ xs) = true

pub toy_aggregate_filled :
    (ss a : List ToySignature) → toy_from_signatures ss ≡ ok a → is_filled a ≡ true
toy_aggregate_filled ss [] h = ground arith
toy_aggregate_filled ss (x ∷ a) h = refl

instance abbrev pub toy_bls : Bls
toy_bls = record {
  PublicKey = ℕ;
  SecretKey = ℕ;
  Signature = ToySignature;
  AggregateSignature = List ToySignature;
  BlsError = Unit;
  public_key_eq = nat_Eq;
  signature_eq = toy_signature_Eq;
  aggregate_eq = record { beq = list_eq; beq_iff = list_eq_iff };
  to_string = λ p. p ∷ [];
  public_key = λ sk. sk;
  sign = toy_sign;
  verify = toy_verify;
  from_signatures = toy_from_signatures;
  aggregate_verify = toy_aggregate_verify;
  IsAugmented = λ x. Unit;
  IsAugmentedAggregate = λ a. is_filled a ≡ true;
  to_string_injective = toy_to_string_injective;
  verify-sign = toy_verify-sign;
  sign-IsAugmented = λ sk m x h. tt;
  aggregate_verify-from_signatures = toy_aggregate_verifies;
  from_signatures-IsAugmented = λ ss a h g. toy_aggregate_filled ss a h;
  from_signatures_total = λ ss h g. (ss, toy_from_signatures_total ss h);
}

instance abbrev pub toy_sha256 : Sha256
toy_sha256 = record { digest = λ m. m }

-- The committed leaves, and those that wait.
abbrev pub ToyTree : Type 0
ToyTree = List Bytes × List Bytes

abbrev pub concat : List Bytes → Bytes
concat [] = []
concat (x ∷ xs) = x ++ concat xs

abbrev pub toy_root : ToyTree → Option Bytes
toy_root ([], waiting) = none
toy_root (h ∷ hs, waiting) = some (concat (h ∷ hs))

abbrev pub has_elem : Option Bytes → Bytes → Bool
has_elem none h = false
has_elem (some x) h = bytes_eq x h

-- The path is all leaves.
abbrev pub toy_verify_path : List Bytes → Bytes → List ℕ → List Bytes → ℕ → Bool
toy_verify_path hashes root (i ∷ []) (h ∷ []) total =
    bytes_eq (concat hashes) root
    && (has_elem (get_elem? hashes i) h && nat_eq total (length hashes))
toy_verify_path hashes root _ _ total = false

pub toy_root-some : (t : ToyTree) → t.0 ≢ [] → (r : Bytes) × (toy_root t ≡ some r)
toy_root-some ([], waiting) h = absurd (h refl)
toy_root-some (x ∷ xs, waiting) h = (concat (x ∷ xs), refl)

pub toy_path_verifies :
    (t : ToyTree) (i : ℕ) (h r : Bytes)
    → get_elem? t.0 i ≡ some h
    → toy_root t ≡ some r
    → toy_verify_path t.0 r (i ∷ []) (h ∷ []) (length t.0) ≡ true
toy_path_verifies ([], waiting) i h r placed has_root = absurd (cc)
toy_path_verifies (x ∷ xs, waiting) i h r placed has_root =
    ground (arith, bytes_eq_iff (concat (x ∷ xs)) r, bytes_eq_iff h h)

instance abbrev pub toy_merkle : RsMerkle sha256_algorithm_hash
toy_merkle = record {
  MerkleTree = ToyTree;
  new = ([], []);
  insert = λ h t. (t.0, t.1 ++ h ∷ []);
  commit = λ t. (t.0 ++ t.1, []);
  leaves = λ t. t.0;
  uncommitted = λ t. t.1;
  leaves_len = λ t. length t.0;
  root = toy_root;
  proof_hashes = λ t indices. t.0;
  verify = toy_verify_path;
  leaves-new = refl;
  uncommitted-new = refl;
  leaves-insert = λ h t. refl;
  uncommitted-insert = λ h t. refl;
  leaves-commit = λ t. refl;
  uncommitted-commit = λ t. refl;
  leaves_len_lem = λ t. refl;
  root_some = toy_root-some;
  verify-proof_hashes = toy_path_verifies;
}

instance abbrev pub toy_index_map : IndexMap BlsPublicKeyWrapper TxMetadata
toy_index_map = record {
  Map = List (BlsPublicKeyWrapper × TxMetadata);
  new = [];
  insert = λ k v m. Assoc.insert k v m;
  get = λ k m. Assoc.lookup k m;
  modify = λ k f m. Assoc.modify k f m;
  entries = λ m. m;
  entries-new = refl;
  entries-insert = λ k v m. refl;
  get_lem = λ k m. refl;
  entries-modify = λ k f m. refl;
}

instance abbrev pub toy_serde_transaction : SerdeTransaction
toy_serde_transaction = record { to_vec = λ tx. tx.from ∷ tx.to ∷ tx.amount ∷ [] }
