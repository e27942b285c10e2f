-- ===== src/Types/Balance/RoundTrip.antt =====
-- A key of a balance proof reads back from its own text (src/types/balance.rs).
use stateless_payments.Common.{Bytes, ◌≡◌, ◌≢◌, refl, [], ◌∷◌, ◌++◌, All, length, arith}
use stateless_payments.Common.Outcome.{ok, ◌>>=◌}
use stateless_payments.External.Bls.{Bls}
use stateless_payments.Types.Balance.{BalanceProofKey}
use stateless_payments.Types.Balance.Serde.{
  KeyCodec, colon, splitn_2, serialize_key, deserialize_wrapper, deserialize_key,
}

splitn_2-append :
    (s rest : Bytes) → All (λ c. c ≢ colon) s → splitn_2 (s ++ colon ∷ rest) ≡ s ∷ rest ∷ []
unfolding splitn_2
splitn_2-append [] rest h = refl
splitn_2-append (c ∷ s) rest h = ground (arith, splitn_2-append s rest h.1)

module _ ⦃b : Bls⦄ ⦃c : KeyCodec⦄ where
  -- A key whose root has 32 bytes is written without an error, and its text reads back as the key.
  pub deserialize-serialize :
      (k : BalanceProofKey) → length k.root ≡ 32 → (serialize_key k >>= deserialize_key) ≡ ok k
  unfolding serialize_key deserialize_key deserialize_wrapper
  deserialize-serialize k h =
      let (t, s, written, inner, back) = c.key_json k.public_key.key in
      ground (
        arith,
        written,
        inner,
        back,
        splitn_2-append (c.encode k.root) t (c.encode_no_colon k.root),
        c.decode-encode k.root,
      )
