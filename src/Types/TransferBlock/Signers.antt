-- ===== src/Types/TransferBlock/Signers.antt =====
-- A signature made by `TransferBlockSignature::new` (src/types/common.rs): it verifies, and names the
-- signers.
use stateless_payments.Common.{
  Bytes, ◌≡◌, refl, List, [], ◌∷◌, map, any, All, ◌==◌, arith, ap, subst,
}
use stateless_payments.Common.Outcome.{Result, ok, err, panic, >>=-eq-ok}
use stateless_payments.External.Bls.{Bls}
use stateless_payments.Types.PublicKey.{wrap, unwrap, wrapper_Eq}
use stateless_payments.Types.Errors.{from_bls}
use stateless_payments.Types.TransferBlock.{
  TransferBlockSignature, IsAugmented, new_aggregated, new_signature, verify_signature,
  signature_contains,
}

module _ ⦃b : Bls⦄ where
  -- Each signature in the list verifies over the message, and is of the scheme that wallets use.
  abbrev pub AllSigned : Bytes → List (b.PublicKey × b.Signature) → Type 0
  AllSigned m = All (λ ps. (b.verify ps.1 ps.0 m ≡ ok tt) × b.IsAugmented ps.1)

  pub from_bls-ok : {A : Type 0} (r : Result b.BlsError A) {a : A} → from_bls r ≡ ok a → r ≡ ok a
  from_bls-ok (ok x) h = cc
  from_bls-ok (err e) h = cc
  from_bls-ok panic h = cc

  ok-inj : {E A : Type 0} {x y : A} → ◌≡◌ {A = Result E A} (ok x) (ok y) → x ≡ y
  ok-inj h = cc

  unwrap-wrap :
      (m : Bytes) (values : List (b.PublicKey × b.Signature))
      → map {B = b.PublicKey × Bytes} (λ pk. (unwrap pk, m)) (map (λ v. wrap v.0) values)
        ≡ map (λ v. (v.0, m)) values
  unwrap-wrap m [] = refl
  unwrap-wrap m (v ∷ values) = ap (λ r. (v.0, m) ∷ r) (unwrap-wrap m values)

  verify-new_aggregated :
      (m : Bytes) (values : List (b.PublicKey × b.Signature)) {s : TransferBlockSignature}
      → AllSigned m values
      → new_aggregated values ≡ ok s
      → verify_signature m s ≡ ok tt
  unfolding new_aggregated verify_signature
  verify-new_aggregated m values signed made =
      let (a, e, r) = >>=-eq-ok (from_bls (b.from_signatures (map (λ v. v.1) values))) _ made in
      let verified =
        b.aggregate_verify-from_signatures m values a (from_bls-ok (b.from_signatures _) e)
          signed in
      ground (arith, unwrap-wrap m values, verified)

  -- What `new_signature` makes of keys and signatures verifies over a message, if each signature
  -- verifies over it with its key and all are of the wallets' scheme.
  pub verify-new_signature :
      (m : Bytes) (values : List (b.PublicKey × b.Signature)) {s : TransferBlockSignature}
      → AllSigned m values
      → new_signature values ≡ ok s
      → verify_signature m s ≡ ok tt
  unfolding new_signature verify_signature
  verify-new_signature m [] signed made = verify-new_aggregated m [] signed made
  verify-new_signature m (v ∷ []) signed made = ground arith
  verify-new_signature m (v ∷ w ∷ values) signed made =
      verify-new_aggregated m (v ∷ w ∷ values) signed made

  aggregated-IsAugmented :
      (values : List (b.PublicKey × b.Signature)) {s : TransferBlockSignature}
      → All b.IsAugmented (map (λ v. v.1) values)
      → new_aggregated values ≡ ok s
      → IsAugmented s
  unfolding new_aggregated
  aggregated-IsAugmented values augmented made =
      let (a, e, r) = >>=-eq-ok (from_bls (b.from_signatures (map (λ v. v.1) values))) _ made in
      subst IsAugmented (ok-inj r) (
        b.from_signatures-IsAugmented (map (λ v. v.1) values) a
          (from_bls-ok (b.from_signatures _) e) augmented)

  -- What `new_signature` makes of signatures of the wallets' scheme is of that scheme.
  pub new_signature-IsAugmented :
      (values : List (b.PublicKey × b.Signature)) {s : TransferBlockSignature}
      → All b.IsAugmented (map (λ v. v.1) values)
      → new_signature values ≡ ok s
      → IsAugmented s
  unfolding new_signature
  new_signature-IsAugmented [] augmented made = aggregated-IsAugmented [] augmented made
  new_signature-IsAugmented (v ∷ []) augmented made = subst IsAugmented (ok-inj made) augmented.0
  new_signature-IsAugmented (v ∷ w ∷ values) augmented made =
      aggregated-IsAugmented (v ∷ w ∷ values) augmented made

  any-map-wrap :
      (pk : b.PublicKey) (values : List (b.PublicKey × b.Signature))
      → any (λ k. k == wrap pk) (map (λ v. wrap v.0) values) ≡ any (λ v. wrap v.0 == wrap pk) values
  any-map-wrap pk [] = refl
  any-map-wrap pk (v ∷ values) = ground (arith, any-map-wrap pk values)

  contains-new_aggregated :
      (pk : b.PublicKey) (values : List (b.PublicKey × b.Signature)) {s : TransferBlockSignature}
      → new_aggregated values ≡ ok s
      → signature_contains s pk ≡ any (λ v. wrap v.0 == wrap pk) values
  unfolding new_aggregated signature_contains
  contains-new_aggregated pk values made =
      let (a, e, r) = >>=-eq-ok (from_bls (b.from_signatures (map (λ v. v.1) values))) _ made in
      ground (arith, any-map-wrap pk values)

  -- What `new_signature` makes of keys and signatures contains exactly those keys.
  pub contains-new_signature :
      (pk : b.PublicKey) (values : List (b.PublicKey × b.Signature)) {s : TransferBlockSignature}
      → new_signature values ≡ ok s
      → signature_contains s pk ≡ any (λ v. wrap v.0 == wrap pk) values
  unfolding new_signature signature_contains
  contains-new_signature pk [] made = contains-new_aggregated pk [] made
  contains-new_signature pk (v ∷ []) made = ground arith
  contains-new_signature pk (v ∷ w ∷ values) made = contains-new_aggregated pk (v ∷ w ∷ values) made
