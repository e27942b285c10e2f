-- ===== src/Websocket/Transport.antt =====
-- src/websocket/transport.rs: the messages of a client as methods.
use stateless_payments.Common.{Bytes, ◌≡◌, refl, some}
use stateless_payments.Common.Outcome.{ok}
use stateless_payments.External.Bls.{Bls}
use stateless_payments.External.Sha2.{Sha256}
use stateless_payments.External.RsMerkle.{RsMerkle}
use stateless_payments.External.IndexMap.{IndexMap}
use stateless_payments.External.Tungstenite.{Tungstenite, text}
use stateless_payments.Types.PublicKey.{BlsPublicKeyWrapper, wrapper_Eq}
use stateless_payments.Types.Transaction.{
  TransactionBatch, TransactionProof, SerdeTransaction, sha256_algorithm_hash,
}
use stateless_payments.Types.Errors.{CrateResult}
use stateless_payments.Types.Balance.{BalanceProof}
use stateless_payments.Types.Balance.Serde.{KeyCodec}
use stateless_payments.Aggregator.{TxMetadata}
use stateless_payments.Websocket.Messages.{
  WsMessage, SerdeWsMessage, try_from, parse_ws_message, c_add_connection, c_send_transaction_batch,
  c_send_transaction_batch_signature, c_send_batch_to_receivers,
}
use stateless_payments.Websocket.ServerState.{ServerState, from_ws, add_batch, add_signature}
use stateless_payments.Websocket.Handling.{handle_message, handle_loop}
use stateless_payments.Websocket.Connections.{first_message, announced}

module _ ⦃b : Bls⦄ where
  -- A method takes the transport and gives it back as it leaves it.
  pub record ClientTransport (Self : Type 0) : Type 0 where
    pub add_connection : b.PublicKey → Self → CrateResult (Unit {0}) × Self
    pub send_transaction_batch : TransactionBatch → Self → CrateResult (Unit {0}) × Self
    pub send_transaction_batch_signature :
        b.PublicKey → b.Signature → Self → CrateResult (Unit {0}) × Self
    pub send_batch_to_receivers :
        TransactionProof → BalanceProof → Self → CrateResult (Unit {0}) × Self

  module _ ⦃ws : Tungstenite⦄ where
    pub record WebSocketTransport : Type 0 where
      pub ws_send : ws.Sink

    module _ ⦃w : SerdeWsMessage⦄ where
      -- `self.ws_send.send(message.into()).await?`
      abbrev send : WsMessage → WebSocketTransport → CrateResult (Unit {0}) × WebSocketTransport
      send message self =
          let (sent, sink) = ws.send (w.to_string message) self.ws_send in
          (from_ws sent, record { ws_send = sink })

      abbrev pub web_socket_transport : ClientTransport WebSocketTransport
      web_socket_transport = record {
        add_connection = λ public_key. send (c_add_connection public_key);
        send_transaction_batch = λ batch. send (c_send_transaction_batch batch);
        send_transaction_batch_signature =
            λ public_key signature. send (c_send_transaction_batch_signature public_key signature);
        send_batch_to_receivers =
            λ proof balance_proof. send (c_send_batch_to_receivers proof balance_proof);
      }

module _ ⦃b : Bls⦄ ⦃s : Sha256⦄ ⦃j : SerdeTransaction⦄ ⦃m : RsMerkle sha256_algorithm_hash⦄
    ⦃im : IndexMap BlsPublicKeyWrapper TxMetadata⦄ ⦃ws : Tungstenite⦄ ⦃w : SerdeWsMessage⦄
    ⦃k : KeyCodec⦄ {State : Type 0} where
  -- What a method puts on the websocket is one text, which the server handles as the call of the
  -- same name: a key as the first message of a connection, a batch and a signature in the loop.
  pub transport_reaches :
      (pk : b.PublicKey) (batch : TransactionBatch) (signature : b.Signature)
      (self : WebSocketTransport) (server : ServerState State)
      → ((t : Bytes) × (web_socket_transport.add_connection pk self
            ≡ (from_ws (ws.send t self.ws_send).0, record { ws_send = (ws.send t self.ws_send).1 }))
          × (first_message (some (ok (text t))) ≡ ok pk))
        × ((t : Bytes) × (web_socket_transport.send_transaction_batch batch self ≡ (
          from_ws (ws.send t self.ws_send).0,
          record { ws_send = (ws.send t self.ws_send).1 },
        ))
            × (handle_loop (ok (text t)) server ≡ add_batch batch server))
        × ((t : Bytes) × (web_socket_transport.send_transaction_batch_signature pk signature self
              ≡ (
                from_ws (ws.send t self.ws_send).0,
                record { ws_send = (ws.send t self.ws_send).1 },
              ))
            × (handle_loop (ok (text t)) server ≡ add_signature pk signature server))
  unfolding first_message announced handle_loop handle_message parse_ws_message try_from
  transport_reaches pk batch signature self server = (
    (_, refl, rw (w.from_str-to_string (c_add_connection pk) tt, (k.key_json pk).2) refl),
    (_, refl, rw (w.from_str-to_string (c_send_transaction_batch batch) tt) refl),
    (_, refl, rw (w.from_str-to_string (c_send_transaction_batch_signature pk signature) tt) refl),
  )
