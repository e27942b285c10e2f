-- ===== src/Tests/Broken.antt =====
-- A websocket on which nothing can be sent.
use stateless_payments.Common.{ℕ, Bytes, ◌≡◌, refl, List, []}
use stateless_payments.Common.Outcome.{ok, err}
use stateless_payments.External.Tungstenite.{Tungstenite}
use stateless_payments.Types.Errors.{
  anyhow, batch_currently_pending, batch_already_pending, websocket_error,
}
use stateless_payments.Rollup.Memory.{MockRollupMemory, memory_trait}
use stateless_payments.Wallet.Wallet.{append_transaction_to_batch, can_produce, produce_batch}
use stateless_payments.Websocket.Client.{Client, send_transaction_batch}
use stateless_payments.Websocket.Client.Wedged.{
  Runs, here, next, sends, appends, failed_send_wedges,
}
use stateless_payments.Tests.Crates.{toy_bls, toy_sha256, toy_merkle, toy_serde_transaction}
use stateless_payments.Tests.Texts.{toy_serde_wallet}
use stateless_payments.Tests.Wire.{toy_serde_ws}
use stateless_payments.Tests.Scene.{alice, carol, alice_batch, wallet_of, no_faults}

instance abbrev broken_tungstenite : Tungstenite
broken_tungstenite = record {
  Sink = List Bytes;
  WsError = Unit;
  send = λ m sent. (err tt, sent);
  close = λ sent. (ok tt, sent);
}

abbrev client : Client
client = record {
  wallet = record (wallet_of alice) { balance = 60; transaction_batch = alice_batch };
  ws_send = [];
}

-- The client tries to send again, and to append.
abbrev tried : Client
tried = record (send_transaction_batch (send_transaction_batch client).1).1 {
  wallet =
      (append_transaction_to_batch carol 5 []
        (send_transaction_batch (send_transaction_batch client).1).1.wallet).1;
}

tried-Runs : Runs MockRollupMemory (send_transaction_batch client).1 no_faults tried no_faults
tried-Runs = next (next here sends) (appends carol 5 [])

producible : can_produce client.wallet ≡ ok tt
unfolding can_produce
producible = refl

failed : (send_transaction_batch client).0 ≡ err (anyhow websocket_error)
unfolding send_transaction_batch produce_batch can_produce
failed = refl

failed_send_wedges_example :
    (tried.wallet.transaction_batch ≡ alice_batch)
    × (send_transaction_batch tried ≡ (err (anyhow batch_already_pending), tried))
    × ((to amount : ℕ) (salt : Bytes)
        → append_transaction_to_batch to amount salt tried.wallet
          ≡ (err (anyhow batch_currently_pending), tried.wallet))
failed_send_wedges_example =
    failed_send_wedges MockRollupMemory client no_faults producible failed tried-Runs
