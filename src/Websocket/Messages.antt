-- ===== src/Websocket/Messages.antt =====
-- src/websocket/ws_message.rs: what clients and the server say to each other.
use stateless_payments.Common.{Bytes, ◌≡◌, some, Option}
use stateless_payments.Common.Outcome.{err, ok_or}
use stateless_payments.External.Bls.{Bls}
use stateless_payments.External.Tungstenite.{WsFrame, text, close_frame, other}
use stateless_payments.Types.Transaction.{TransactionBatch, TransactionProof}
use stateless_payments.Types.Errors.{
  CrateResult, anyhow, invalid_json, connection_closed, invalid_message_type,
}
use stateless_payments.Types.Balance.{BalanceProof}

module _ ⦃b : Bls⦄ where
  pub data WsMessage : Type 0 where
    c_add_connection : b.PublicKey → WsMessage
    c_send_transaction_batch : TransactionBatch → WsMessage
    c_send_transaction_batch_signature : b.PublicKey → b.Signature → WsMessage
    c_send_batch_to_receivers : TransactionProof → BalanceProof → WsMessage
    s_send_transaction_inclusion_proof : TransactionProof → WsMessage
    s_receive_transaction : TransactionProof → BalanceProof → WsMessage

  -- A message without a balance proof, whose entries have no order.
  abbrev pub HasNoMap : WsMessage → Type 0
  HasNoMap (c_send_batch_to_receivers proof balance_proof) = ⊥
  HasNoMap (s_receive_transaction proof balance_proof) = ⊥
  HasNoMap _ = Unit

  -- `serde_json` at messages. A message without a map reads back as it was.
  pub record SerdeWsMessage : Type 0 where
    pub to_string : WsMessage → Bytes
    pub from_str : Bytes → Option WsMessage
    pub from_str-to_string :
        (message : WsMessage) → HasNoMap message → from_str (to_string message) ≡ some message

  module _ ⦃w : SerdeWsMessage⦄ where
    -- `TryFrom<Message> for WsMessage`
    unfoldable pub try_from : WsFrame → CrateResult WsMessage
    try_from (text json) = ok_or (w.from_str json) (anyhow invalid_json)
    try_from close_frame = err (anyhow invalid_message_type)
    try_from other = err (anyhow invalid_message_type)

    unfoldable pub parse_ws_message : WsFrame → CrateResult WsMessage
    unfolding try_from
    parse_ws_message (text json) = try_from (text json)
    parse_ws_message close_frame = err (anyhow connection_closed)
    parse_ws_message other = err (anyhow invalid_message_type)
