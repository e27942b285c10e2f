-- ===== src/Websocket/Handling.antt =====
-- The handling of a client's message (handle_loop in src/websocket/server/connection.rs).
use stateless_payments.Common.Outcome.{Result, ok, err, panic, on_ok}
use stateless_payments.External.Bls.{Bls}
use stateless_payments.External.Sha2.{Sha256}
use stateless_payments.External.RsMerkle.{RsMerkle}
use stateless_payments.External.IndexMap.{IndexMap}
use stateless_payments.External.Tungstenite.{Tungstenite, WsFrame}
use stateless_payments.Types.PublicKey.{BlsPublicKeyWrapper, wrapper_Eq}
use stateless_payments.Types.Transaction.{SerdeTransaction, sha256_algorithm_hash}
use stateless_payments.Types.Errors.{CrateResult, anyhow, websocket_error, invalid_message_type}
use stateless_payments.Types.Balance.Serde.{KeyCodec}
use stateless_payments.Aggregator.{TxMetadata}
use stateless_payments.Websocket.Messages.{
  WsMessage, SerdeWsMessage, parse_ws_message, c_send_transaction_batch,
  c_send_transaction_batch_signature, c_send_batch_to_receivers,
}
use stateless_payments.Websocket.ServerState.{
  ServerState, add_batch, add_signature, send_batch_to_receivers,
}

module _ ⦃b : Bls⦄ ⦃s : Sha256⦄ ⦃j : SerdeTransaction⦄ ⦃m : RsMerkle sha256_algorithm_hash⦄
    ⦃im : IndexMap BlsPublicKeyWrapper TxMetadata⦄ ⦃ws : Tungstenite⦄ {State : Type 0} where
  module _ ⦃w : SerdeWsMessage⦄ ⦃c : KeyCodec⦄ where
    -- The `match` of `handle_loop`.
    unfoldable pub handle_message :
        WsMessage → ServerState State → CrateResult (Unit {0}) × ServerState State
    unfolding add_batch add_signature send_batch_to_receivers
    handle_message (c_send_transaction_batch batch) self = add_batch batch self
    handle_message (c_send_transaction_batch_signature from signature) self =
        add_signature from signature self
    handle_message (c_send_batch_to_receivers proof balance_proof) self =
        send_batch_to_receivers proof balance_proof self
    handle_message _ self = (err (anyhow invalid_message_type), self)

    -- `handle_loop`, at what came out of the websocket.
    unfoldable pub handle_loop :
        Result ws.WsError WsFrame → ServerState State → CrateResult (Unit {0}) × ServerState State
    unfolding handle_message parse_ws_message
    handle_loop (ok frame) self =
        on_ok (parse_ws_message frame) self λ message. handle_message message self
    handle_loop (err e) self = (err (anyhow websocket_error), self)
    handle_loop panic self = (panic, self)
