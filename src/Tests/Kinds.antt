-- ===== src/Tests/Kinds.antt =====
-- Types at concrete keys and signatures.
use stateless_payments.Common.{ℕ, Bytes, ◌≡◌, refl, List, [], ◌∷◌, ◌++◌}
use stateless_payments.Common.Outcome.{ok, ◌>>=◌}
use stateless_payments.Types.PublicKey.{wrap, wrapper_Eq}
use stateless_payments.Types.TransferBlock.{new_aggregated, new_signature}
use stateless_payments.Types.Balance.{BalanceProofKey}
use stateless_payments.Types.Balance.Serde.{serialize_key, deserialize_key}
use stateless_payments.Types.Balance.RoundTrip.{deserialize-serialize}
use stateless_payments.Tests.Crates.{toy_bls, ToySignature}
use stateless_payments.Tests.Texts.{toy_key_codec}
use stateless_payments.Tests.Scene.{alice, carol, round_block, alice_signature, carol_signature}

abbrev both_signed : List (ℕ × ToySignature)
both_signed = (alice, alice_signature) ∷ (carol, carol_signature) ∷ []

both_aggregated : new_signature both_signed ≡ ok round_block.signature
unfolding new_signature new_aggregated
both_aggregated = refl

abbrev four : Bytes
four = 1 ∷ 58 ∷ 3 ∷ 4 ∷ []

abbrev long_root : Bytes
long_root = four ++ four ++ four ++ four ++ four ++ four ++ four ++ four

abbrev long_key : BalanceProofKey
long_key = record { root = long_root; public_key = wrap alice }

deserialize-serialize_example : (serialize_key long_key >>= deserialize_key) ≡ ok long_key
deserialize-serialize_example = deserialize-serialize long_key refl
