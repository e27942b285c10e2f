-- ===== src/Tests/Wire.antt =====
-- A websocket that keeps what was sent, and texts for the messages, for the tests.
use stateless_payments.Common.{
  ℕ, zero, suc, Bytes, ◌≡◌, refl, Option, none, some, List, [], ◌∷◌, ◌++◌, arith,
}
use stateless_payments.Common.Outcome.{ok}
use stateless_payments.External.Tungstenite.{Tungstenite}
use stateless_payments.Types.Transaction.{TransactionProof}
use stateless_payments.Types.Balance.{BalanceProof}
use stateless_payments.Websocket.Messages.{
  WsMessage, HasNoMap, SerdeWsMessage, c_add_connection, c_send_transaction_batch,
  c_send_transaction_batch_signature, c_send_batch_to_receivers, s_send_transaction_inclusion_proof,
  s_receive_transaction,
}
use stateless_payments.Tests.Crates.{toy_bls, ToySignature}
use stateless_payments.Tests.Codec.{Codec, nat_codec, pair_codec, list_codec}
use stateless_payments.Tests.Texts.{
  bytes_codec, batch_codec, proof_codec, key_codec, read_with, read_with-enc,
}

-- A sink keeps what was sent.
instance abbrev pub toy_tungstenite : Tungstenite
toy_tungstenite = record {
  Sink = List Bytes;
  WsError = Unit;
  send = λ m sent. (ok tt, sent ++ m ∷ []);
  close = λ sent. (ok tt, sent);
}

abbrev pub signed_codec : Codec (ℕ × ToySignature)
signed_codec = pair_codec nat_codec (pair_codec nat_codec bytes_codec)

abbrev pub proofs_codec : Codec (TransactionProof × BalanceProof)
proofs_codec = pair_codec proof_codec (list_codec (pair_codec key_codec proof_codec))

abbrev pub toy_to_string : WsMessage → Bytes
toy_to_string (c_add_connection pk) = 0 ∷ nat_codec.enc pk []
toy_to_string (c_send_transaction_batch batch) = 1 ∷ batch_codec.enc batch []
toy_to_string (c_send_transaction_batch_signature pk signature) =
    2 ∷ signed_codec.enc (pk, signature) []
toy_to_string (c_send_batch_to_receivers proof proofs) = 3 ∷ proofs_codec.enc (proof, proofs) []
toy_to_string (s_send_transaction_inclusion_proof proof) = 4 ∷ proof_codec.enc proof []
toy_to_string (s_receive_transaction proof proofs) = 5 ∷ proofs_codec.enc (proof, proofs) []

abbrev pub read_as : {A : Type 0} → Codec A → (A → WsMessage) → Bytes → Option WsMessage
read_as c make content = elim (read_with c content) [ none ↦ none | some x ↦ some (make x) ]

abbrev pub toy_from_str : Bytes → Option WsMessage
toy_from_str (zero ∷ r) = read_as nat_codec c_add_connection r
toy_from_str (suc zero ∷ r) = read_as batch_codec c_send_transaction_batch r
toy_from_str (suc (suc zero) ∷ r) =
    read_as signed_codec (λ x. c_send_transaction_batch_signature x.0 x.1) r
toy_from_str (suc (suc (suc zero)) ∷ r) =
    read_as proofs_codec (λ x. c_send_batch_to_receivers x.0 x.1) r
toy_from_str (suc (suc (suc (suc zero))) ∷ r) =
    read_as proof_codec s_send_transaction_inclusion_proof r
toy_from_str (suc (suc (suc (suc (suc n)))) ∷ r) =
    read_as proofs_codec (λ x. s_receive_transaction x.0 x.1) r
toy_from_str [] = none

read_as-enc :
    {A : Type 0} (c : Codec A) (make : A → WsMessage) (x : A)
    → read_as c make (c.enc x []) ≡ some (make x)
read_as-enc c make x = ground (arith, read_with-enc c x)

pub reads_back :
    (message : WsMessage) → HasNoMap message → toy_from_str (toy_to_string message) ≡ some message
reads_back (c_add_connection pk) h = refl
reads_back (c_send_transaction_batch batch) h =
    read_as-enc batch_codec c_send_transaction_batch batch
reads_back (c_send_transaction_batch_signature pk signature) h =
    read_as-enc signed_codec (λ x. c_send_transaction_batch_signature x.0 x.1) (pk, signature)
reads_back (c_send_batch_to_receivers proof proofs) h = elim h [ ]
reads_back (s_send_transaction_inclusion_proof proof) h =
    read_as-enc proof_codec s_send_transaction_inclusion_proof proof
reads_back (s_receive_transaction proof proofs) h = elim h [ ]

instance abbrev pub toy_serde_ws : SerdeWsMessage
toy_serde_ws = record {
  to_string = toy_to_string;
  from_str = toy_from_str;
  from_str-to_string = reads_back;
}
