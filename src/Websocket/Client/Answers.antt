-- ===== src/Websocket/Client/Answers.antt =====
-- A client and the server: the server's proof is answered by a signature, which the server takes
-- (handle_ws_message in src/websocket/client/client.rs, handle_loop in
-- src/websocket/server/connection.rs).
use stateless_payments.Common.{Bytes, ◌≡◌, refl, ap, ◌∙◌, true, some}
use stateless_payments.Common.Assoc.{lookup, insert, modify}
use stateless_payments.Common.Outcome.{ok}
use stateless_payments.External.Bls.{Bls}
use stateless_payments.External.Sha2.{Sha256}
use stateless_payments.External.RsMerkle.{RsMerkle}
use stateless_payments.External.IndexMap.{IndexMap}
use stateless_payments.External.Tungstenite.{Tungstenite, text}
use stateless_payments.Types.PublicKey.{BlsPublicKeyWrapper, wrap, wrapper_Eq}
use stateless_payments.Types.Transaction.{TransactionProof, SerdeTransaction, sha256_algorithm_hash}
use stateless_payments.Types.Balance.Serde.{KeyCodec}
use stateless_payments.Types.Balance.{key_Eq}
use stateless_payments.Rollup.Traits.{RollupStateTrait}
use stateless_payments.Aggregator.{
  TxMetadata, collect_signatures, Aggregator, generate_proof_for_pubkey, add_signature,
  set_signature,
}
use stateless_payments.Aggregator.Invariant.{IsValid, entries_of}
use stateless_payments.Wallet.Persist.{Files, SerdeWallet}
use stateless_payments.Wallet.Persist.RoundTrip.{IsHealthy}
use stateless_payments.Wallet.Wallet.{sign_checked, signed_wallet, validate_and_sign_proof}
use stateless_payments.Wallet.Wallet.Accepting.{save_succeeds}
use stateless_payments.Wallet.Wallet.Spending
use stateless_payments.Flow.Handshake.{handshake}
use stateless_payments.Websocket.Messages.{
  SerdeWsMessage, try_from, parse_ws_message, c_send_transaction_batch_signature,
  s_send_transaction_inclusion_proof,
}
use stateless_payments.Websocket.ServerState.{
  Connection, Connections, ServerState, send_message, send_proof, from_ws,
}
use stateless_payments.Websocket.ServerState
use stateless_payments.Websocket.Handling.{handle_loop}
use stateless_payments.Websocket.Handling
use stateless_payments.Websocket.Client.{
  Client, validate_sign_proof_send_signature, handle_message, handle_ws_message,
}

module _ ⦃b : Bls⦄ ⦃w : SerdeWsMessage⦄ where
  -- What the server sends, and what the client answers.
  abbrev pub proof_text : TransactionProof → Bytes
  proof_text proof = w.to_string (s_send_transaction_inclusion_proof proof)

  abbrev pub signature_text : b.PublicKey → b.Signature → Bytes
  signature_text pk signature = w.to_string (c_send_transaction_batch_signature pk signature)

module _ ⦃b : Bls⦄ ⦃s : Sha256⦄ ⦃j : SerdeTransaction⦄ ⦃m : RsMerkle sha256_algorithm_hash⦄
    ⦃im : IndexMap BlsPublicKeyWrapper TxMetadata⦄ ⦃ws : Tungstenite⦄ ⦃w : SerdeWsMessage⦄
    ⦃c : SerdeWallet⦄ ⦃k : KeyCodec⦄ {State : Type 0} ⦃t : RollupStateTrait State⦄ where
  -- The server while the client's key is connected, a valid round collects signatures, and the
  -- client's batch is in it; and the client while it waits for the proof and can sign.
  pub record IsAwaited (server : ServerState State) (self : Client) (md : TxMetadata)
      (connection : Connection) : Type 0 where
    pub valid_round : IsValid server.aggregator
    pub collecting : server.aggregator.state ≡ collect_signatures
    pub connected : lookup (wrap self.wallet.public_key) server.connections ≡ some connection
    pub own_connection : connection.public_key ≡ self.wallet.public_key
    pub valid_wallet : Spending.IsValid self.wallet
    pub pending : self.wallet.batch_is_pending ≡ true
    pub entered : lookup (wrap self.wallet.public_key) (entries_of server.aggregator) ≡ some md
    pub same_batch : md.batch ≡ self.wallet.transaction_batch

  server_sends :
      (server : ServerState State) (self : Client) (proof : TransactionProof)
      {connection : Connection}
      → lookup (wrap self.wallet.public_key) server.connections ≡ some connection
      → connection.public_key ≡ self.wallet.public_key
      → generate_proof_for_pubkey server.aggregator self.wallet.public_key ≡ ok proof
      → send_proof server.aggregator (wrap self.wallet.public_key) server.connections
        ≡ modify
            (wrap self.wallet.public_key)
            (send_message (s_send_transaction_inclusion_proof proof))
            server.connections
  unfolding send_proof
  server_sends server self proof {connection} connected own made =
      let its_proof = ap (generate_proof_for_pubkey server.aggregator) own ∙ made in
      rw (send_proof, connected, its_proof) refl

  client_signs :
      (rollup : State) (proof : TransactionProof) (signature : b.Signature) (self : Client)
      (files : Files)
      → sign_checked proof self.wallet ≡ ok signature
      → IsHealthy files
      → (ws.send (signature_text self.wallet.public_key signature) self.ws_send).0 ≡ ok tt
      → (files' : Files) × (handle_ws_message rollup (ok (text (proof_text proof))) self files ≡ (
        ok tt,
        (
          record self {
            wallet = signed_wallet proof self.wallet;
            ws_send = (ws.send (signature_text self.wallet.public_key signature) self.ws_send).1;
          },
          files',
        ),
      ))
  unfolding handle_ws_message parse_ws_message try_from handle_message
      validate_sign_proof_send_signature validate_and_sign_proof
  client_signs rollup proof signature self files signs healthy sends =
      let (files', saved) = save_succeeds (signed_wallet proof self.wallet) files healthy in
      (
        files',
        rw (w.from_str-to_string (s_send_transaction_inclusion_proof proof) tt, signs, saved, sends)
            refl,
      )

  server_takes :
      (server : ServerState State) (pk : b.PublicKey) (signature : b.Signature) {a : Aggregator}
      → add_signature pk signature server.aggregator ≡ (ok tt, a)
      → handle_loop (ok (text (signature_text pk signature))) server ≡ (
        ok tt,
        record server {
          aggregator = a;
          connections_with_tx = insert (wrap pk) true server.connections_with_tx;
        },
      )
  unfolding handle_loop parse_ws_message try_from Handling.handle_message ServerState.add_signature
  server_takes server pk signature added =
      rw
        (
          w.from_str-to_string (c_send_transaction_batch_signature pk signature) tt,
          (k.key_json pk).2,
          added,
        )
        refl

  pub answered :
      (rollup : State) (server : ServerState State) (self : Client) (files : Files)
      (md : TxMetadata) (connection : Connection)
      → IsAwaited server self md connection
      → ((message : Bytes)
          → (signature : b.Signature) × (b.sign self.wallet.private_key message ≡ ok signature))
      → IsHealthy files
      → ((message : Bytes) → (ws.send message self.ws_send).0 ≡ ok tt)
      → let key = wrap self.wallet.public_key in
        (proof : TransactionProof) × (signature : b.Signature) × (files' : Files) × (send_proof
            server.aggregator key server.connections
          ≡ modify key (send_message (s_send_transaction_inclusion_proof proof)) server.connections)
        × (handle_ws_message rollup (ok (text (proof_text proof))) self files ≡ (
          ok tt,
          (
            record self {
              wallet = signed_wallet proof self.wallet;
              ws_send = (ws.send (signature_text self.wallet.public_key signature) self.ws_send).1;
            },
            files',
          ),
        ))
        × (handle_loop (ok (text (signature_text self.wallet.public_key signature))) server ≡ (
          ok tt,
          record server {
            aggregator = record (server.aggregator) {
              tx_hash_to_metadata =
                  im.modify key (set_signature signature) server.aggregator.tx_hash_to_metadata;
            };
            connections_with_tx = insert key true server.connections_with_tx;
          },
        ))
  answered rollup server self files md connection v can_sign healthy sends =
      let (proof, signature, made, signs, added) =
        handshake server.aggregator self.wallet md v.valid_round v.valid_wallet v.collecting
          v.pending v.entered v.same_batch can_sign in
      let (files', signed) =
        client_signs rollup proof signature self files signs healthy
          (sends (signature_text self.wallet.public_key signature)) in
      (
        proof,
        signature,
        files',
        server_sends server self proof v.connected v.own_connection made,
        signed,
        server_takes server self.wallet.public_key signature added,
      )
