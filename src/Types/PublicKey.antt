-- ===== src/Types/PublicKey.antt =====
-- src/types/public_key.rs: a public key that can be a key of a hash map.
use stateless_payments.Common.{ℕ, Bytes, bytes_eq, bytes_eq_iff, Bool, true, ◌≡◌, ◌↔◌, ap, Eq}
use stateless_payments.Common.Assoc.{HashMap}
use stateless_payments.External.Bls.{Bls}

module _ ⦃b : Bls⦄ where
  pub record BlsPublicKeyWrapper : Type 0 where
    pub key : b.PublicKey

  -- `PartialEq::eq`
  abbrev pub eq : BlsPublicKeyWrapper → BlsPublicKeyWrapper → Bool
  eq self other = bytes_eq (b.to_string self.key) (b.to_string other.key)

  -- `Hash::hash`, over the hasher of the standard library.
  abbrev pub hash : {State : Type 0} → (Bytes → State → State) → BlsPublicKeyWrapper → State → State
  hash feed self state = feed (b.to_string self.key) state

  -- `From<BlsPublicKey>`, `From<&BlsPublicKey>`
  abbrev pub wrap : b.PublicKey → BlsPublicKeyWrapper
  wrap public_key = record { key = public_key }

  -- `Into<BlsPublicKey>`
  abbrev pub unwrap : BlsPublicKeyWrapper → b.PublicKey
  unwrap self = self.key

  -- Two wrapped keys are equal exactly when they are the same key.
  pub eq_iff : (x y : BlsPublicKeyWrapper) → (eq x y ≡ true) ↔ (x ≡ y)
  eq_iff x y = (
    (λ h. ap wrap (b.to_string_injective x.key y.key ((bytes_eq_iff _ _).0 h))),
    (λ h. (bytes_eq_iff _ _).1 (ap (λ (w : BlsPublicKeyWrapper). b.to_string w.key) h)),
  )

  -- Equal keys have equal hashes, which a hash map asks of its keys.
  hash-eq :
      {State : Type 0} (feed : Bytes → State → State) (s : State) (x y : BlsPublicKeyWrapper)
      → eq x y ≡ true
      → hash feed x s ≡ hash feed y s
  hash-eq feed s x y h = ap (λ (t : Bytes). feed t s) ((bytes_eq_iff _ _).0 h)

  instance abbrev pub wrapper_Eq : Eq BlsPublicKeyWrapper
  wrapper_Eq = record { beq = eq; beq_iff = eq_iff }

  abbrev pub AccountTotals : Type 0
  AccountTotals = HashMap BlsPublicKeyWrapper ℕ
