-- ===== src/Websocket/ServerState.antt =====
-- src/websocket/server/server_state.rs. A message is put on a connection's sink by the crate.
pub mod Tracked
pub mod InStep
pub mod Kept
use stateless_payments.Common.{
  Bytes, Bool, true, false, Option, none, some, List, [], ◌∷◌, is_empty, if◌then◌else◌,
}
use stateless_payments.Common.Assoc.{HashMap, lookup, insert, modify, remove}
use stateless_payments.Common.Outcome.{Result, ok, err, panic, ok_or, on_ok, ◌>>=◌}
use stateless_payments.External.Bls.{Bls}
use stateless_payments.External.Sha2.{Sha256}
use stateless_payments.External.RsMerkle.{RsMerkle}
use stateless_payments.External.IndexMap.{IndexMap}
use stateless_payments.External.Tungstenite.{Tungstenite, WsFrame}
use stateless_payments.Types.PublicKey.{BlsPublicKeyWrapper, wrap, wrapper_Eq}
use stateless_payments.Types.Transaction.{
  SimpleTransaction, TransactionBatch, TransactionProof, SerdeTransaction, sha256_algorithm_hash,
}
use stateless_payments.Types.Errors.{
  CrateResult, anyhow, websocket_error, invalid_json, invalid_message_type,
}
use stateless_payments.Types.Balance.{BalanceProof}
use stateless_payments.Types.Balance.Serde.{KeyCodec}
use stateless_payments.Aggregator.{Aggregator, TxMetadata, generate_proof_for_pubkey}
use stateless_payments.Aggregator
use stateless_payments.Rollup.Traits.{RollupStateTrait}
use stateless_payments.Websocket.Messages.{
  WsMessage, SerdeWsMessage, parse_ws_message, c_add_connection, c_send_transaction_batch,
  c_send_transaction_batch_signature, c_send_batch_to_receivers, s_send_transaction_inclusion_proof,
  s_receive_transaction,
}

module _ ⦃b : Bls⦄ ⦃ws : Tungstenite⦄ where
  pub record Connection : Type 0 where
    pub public_key : b.PublicKey
    pub ws_send : ws.Sink

  abbrev pub Connections : Type 0
  Connections = HashMap BlsPublicKeyWrapper Connection

  -- `?` on a result of the crate.
  abbrev pub from_ws : Result ws.WsError (Unit {0}) → CrateResult (Unit {0})
  from_ws (ok x) = ok x
  from_ws (err e) = err (anyhow websocket_error)
  from_ws panic = panic

  -- `ws_send.send(message.into()).await`, whose error is only logged.
  abbrev pub send_message : ⦃w : SerdeWsMessage⦄ → WsMessage → Connection → Connection
  send_message ⦃w⦄ message connection = record connection {
    ws_send = (ws.send (w.to_string message) connection.ws_send).1;
  }

  -- The loop of `send_batch_to_receivers`. A receiver without a connection is passed over.
  unfoldable pub send_to_receivers :
      ⦃w : SerdeWsMessage⦄ → WsMessage → List SimpleTransaction → Connections → Connections
  send_to_receivers message [] connections = connections
  send_to_receivers message (transaction ∷ rest) connections =
      send_to_receivers message rest
        (modify (wrap transaction.to) (send_message message) connections)

module _ ⦃b : Bls⦄ ⦃s : Sha256⦄ ⦃j : SerdeTransaction⦄ ⦃m : RsMerkle sha256_algorithm_hash⦄
    ⦃im : IndexMap BlsPublicKeyWrapper TxMetadata⦄ ⦃ws : Tungstenite⦄ where
  pub record ServerState (State : Type 0) : Type 0 where
    pub connections : Connections
    -- Who has a batch in the round, and whether their signature came in.
    pub connections_with_tx : HashMap BlsPublicKeyWrapper Bool
    pub aggregator : Aggregator
    pub rollup_state : State

  module _ ⦃w : SerdeWsMessage⦄ where
    -- What the loop of `start_collecting_signatures` does for one key.
    unfoldable pub send_proof : Aggregator → BlsPublicKeyWrapper → Connections → Connections
    unfolding generate_proof_for_pubkey
    send_proof aggregator key connections = elim (lookup key connections) [
      | none ↦ connections
      | some connection ↦ elim (generate_proof_for_pubkey aggregator connection.public_key) [
        | ok proof ↦
            modify key (send_message (s_send_transaction_inclusion_proof proof)) connections
        | err e ↦ connections
        | panic ↦ connections
      ]
    ]

    unfoldable pub send_proofs :
        Aggregator → HashMap BlsPublicKeyWrapper Bool → Connections → Connections
    unfolding send_proof
    send_proofs aggregator [] connections = connections
    send_proofs aggregator ((key, signed) ∷ rest) connections =
        send_proofs aggregator rest (send_proof aggregator key connections)

  module _ {State : Type 0} where
    -- `ServerState::new`, given the salt that the aggregator draws.
    unfoldable pub new : State → Bytes → ServerState State
    new rollup_state salt = record {
      connections = [];
      connections_with_tx = [];
      aggregator = Aggregator.new salt;
      rollup_state = rollup_state;
    }

    unfoldable pub add_connection : Connection → ServerState State → ServerState State
    add_connection connection self = record self {
      connections = insert (wrap connection.public_key) connection self.connections;
    }

    unfoldable pub remove_connection :
        b.PublicKey → ServerState State → CrateResult (Unit {0}) × ServerState State
    remove_connection public_key self = elim (lookup (wrap public_key) self.connections) [
      | none ↦ (ok tt, self)
      | some connection ↦
          let (closed, sink) = ws.close connection.ws_send in
          on_ok (from_ws closed)
            (record self {
              connections =
                  modify (wrap public_key) (λ c. record c { ws_send = sink }) self.connections;
            })
            (λ _. (ok tt, record self { connections = remove (wrap public_key) self.connections }))
    ]

    unfoldable pub start_collecting_signatures :
        ⦃w : SerdeWsMessage⦄
        → ServerState State
        → CrateResult (Option (Unit {0})) × ServerState State
    unfolding send_proofs Aggregator.start_collecting_signatures
    start_collecting_signatures self =
        if is_empty (im.entries self.aggregator.tx_hash_to_metadata)
        then (ok none, self)
        else let (started, aggregator) = Aggregator.start_collecting_signatures self.aggregator in
          on_ok started (record self { aggregator = aggregator })
            λ _. (
              ok (some tt),
              record self {
                aggregator = aggregator;
                connections = send_proofs aggregator self.connections_with_tx self.connections;
              },
            )

    -- The key is written as JSON for the log first, which may fail.
    unfoldable pub add_batch :
        ⦃c : KeyCodec⦄
        → TransactionBatch
        → ServerState State
        → CrateResult (Unit {0}) × ServerState State
    unfolding Aggregator.add_batch
    add_batch ⦃c⦄ batch self =
        on_ok (ok_or (c.key_to_json batch.from) (anyhow invalid_json)) self λ _.
          let (added, aggregator) = Aggregator.add_batch batch self.aggregator in
          on_ok added (record self { aggregator = aggregator })
            λ _. (
              ok tt,
              record self {
                aggregator = aggregator;
                connections_with_tx = insert (wrap batch.from) false self.connections_with_tx;
              },
            )

    unfoldable pub add_signature :
        ⦃c : KeyCodec⦄
        → b.PublicKey
        → b.Signature
        → ServerState State
        → CrateResult (Unit {0}) × ServerState State
    unfolding Aggregator.add_signature
    add_signature ⦃c⦄ public_key signature self =
        on_ok (ok_or (c.key_to_json public_key) (anyhow invalid_json)) self λ _.
          let (added, aggregator) = Aggregator.add_signature public_key signature self.aggregator in
          on_ok added (record self { aggregator = aggregator })
            λ _. (
              ok tt,
              record self {
                aggregator = aggregator;
                connections_with_tx = insert (wrap public_key) true self.connections_with_tx;
              },
            )

    unfoldable pub send_batch_to_receivers :
        ⦃w : SerdeWsMessage⦄
        → TransactionProof
        → BalanceProof
        → ServerState State
        → CrateResult (Unit {0}) × ServerState State
    unfolding send_to_receivers
    send_batch_to_receivers proof balance_proof self = (
      ok tt,
      record self {
        connections =
            send_to_receivers (s_receive_transaction proof balance_proof) proof.batch.transactions
              self.connections;
      },
    )

    -- Given the salt of the next round's aggregator.
    unfoldable pub finalise :
        ⦃t : RollupStateTrait State⦄
        → Bytes
        → ServerState State
        → CrateResult (Unit {0}) × ServerState State
    unfolding Aggregator.finalise
    finalise ⦃t⦄ salt self =
        let (made, aggregator) = Aggregator.finalise self.aggregator in
        on_ok made (record self { aggregator = aggregator })
          λ transfer_block.
            let (posted, rollup_state) = t.add_transfer_block transfer_block self.rollup_state in
            on_ok posted (record self { aggregator = aggregator; rollup_state = rollup_state })
              λ _. (
                ok tt,
                record self {
                  connections_with_tx = [];
                  aggregator = Aggregator.new salt;
                  rollup_state = rollup_state;
                },
              )
