-- ===== src/Tests/Deliveries.antt =====
-- A payment on its way from alice's client to bob's, by the server that bob is connected to.
use stateless_payments.Flow.Filed.{finalised_on_file}
use stateless_payments.Types.TransferBlock.{verify_block}
use stateless_payments.Rollup.Memory
use stateless_payments.Rollup.Fs
use stateless_payments.Rollup.Fs.{Disk, Faults}
use stateless_payments.Rollup.Fs.Refines.{of_memory, view, Simulates}
use stateless_payments.Common.{false, ◌++◌, ℕ, ◌+◌, ◌≤◌, ◌≡◌, refl, some, [], ◌∷◌}
use stateless_payments.Common.Assoc.{lookup}
use stateless_payments.Common.Outcome.{ok}
use stateless_payments.Types.PublicKey.{wrap, wrapper_Eq}
use stateless_payments.Types.TransferBlock.{TransferBlock}
use stateless_payments.Types.Balance.{key_Eq}
use stateless_payments.Aggregator.{finalised, finalise}
use stateless_payments.Aggregator.Rounds.{reachable-IsValid}
use stateless_payments.Rollup.Memory.{MockRollupMemory, add_transfer_block, memory_trait}
use stateless_payments.Wallet.Persist.{Files}
use stateless_payments.Wallet.Utils.{merge_into}
use stateless_payments.Flow.Delivery.{delivered}
use stateless_payments.Websocket.Messages.{c_send_batch_to_receivers, s_receive_transaction}
use stateless_payments.Websocket.ServerState.{Connection, ServerState}
use stateless_payments.Websocket.Client.{Client, send_batch_with_root_to_receivers, handle_message}
use stateless_payments.Websocket.Handling
use stateless_payments.Tests.Crates.{
  toy_bls, toy_sha256, toy_merkle, toy_index_map, toy_serde_transaction,
}
use stateless_payments.Tests.Texts.{toy_key_codec, toy_serde_wallet, toy_serde_rollup}
use stateless_payments.Tests.Wire.{toy_tungstenite, toy_serde_ws, toy_to_string}
use stateless_payments.Tests.Scene.{
  alice, bob, alice_proof, alice_proofs, round_salt, collected, collected-Reach, before_block,
  alice_wallet, wallet_of, no_faults,
}
use stateless_payments.Tests.Rounds.{
  some_signed, collected_state, All-IsAugmented, alice_included, collected_root, alice_signer,
}
use stateless_payments.Tests.Payments.{alice_spends}
use stateless_payments.Tests.Wallets.{no_faults-IsHealthy}

abbrev bob_connection : Connection
bob_connection = record { public_key = bob; ws_send = [] }

abbrev bob_connected : ServerState MockRollupMemory
bob_connected = record {
  connections = (wrap bob, bob_connection) ∷ [];
  connections_with_tx = [];
  aggregator = collected;
  rollup_state = before_block;
}

abbrev bob_client : Client
bob_client = record { wallet = wallet_of bob; ws_send = [] }

abbrev alice_client : Client
alice_client = record {
  wallet = record (wallet_of alice) { balance = 60; balance_proof = alice_proofs };
  ws_send = [];
}

delivered_example :
    (block : TransferBlock) × (n : ℕ) × (files' : Files) × (finalise collected
      ≡ (ok block, record collected { state = finalised block }))
    × (send_batch_with_root_to_receivers alice_proof.root alice_client ≡ (
      ok tt,
      record alice_client {
        ws_send = toy_to_string (c_send_batch_to_receivers alice_proof alice_proofs) ∷ [];
      },
    ))
    × (lookup
          (wrap bob)
          (Handling.handle_message
            (c_send_batch_to_receivers alice_proof alice_proofs)
            bob_connected).1.connections
        ≡ some (record bob_connection {
          ws_send = toy_to_string (s_receive_transaction alice_proof alice_proofs) ∷ [];
        }))
    × (1 ≤ 1)
    × (handle_message
          (add_transfer_block block before_block).1
          (s_receive_transaction alice_proof alice_proofs)
          bob_client
          no_faults
        ≡ (
          ok tt,
          (
            record bob_client {
              wallet = record (wallet_of bob) { balance = n; balance_proof = alice_proofs };
            },
            files',
          ),
        ))
    × (n + 0 + 0 ≡ 30 + 0)
unfolding merge_into
delivered_example =
    delivered collected before_block alice_proof alice_wallet [] bob_connected bob_connection
      bob_client no_faults (reachable-IsValid round_salt collected-Reach) collected_state
      All-IsAugmented tt alice_included collected_root alice_signer refl refl refl tt tt refl
      no_faults-IsHealthy alice_spends

-- The contract before the block, in its file.
abbrev before_disk : Disk
before_disk = record {
  content = toy_serde_rollup.to_writer (of_memory before_block);
  faults = record {
    open_fails = false;
    lock_fails = false;
    write_fails = false;
    unlock_fails = false;
    torn = [];
  };
}

finalised_on_file_example :
    (block : TransferBlock) × (finalise collected
      ≡ (ok block, record collected { state = finalised block }))
    × (verify_block block ≡ ok tt)
    × Simulates before_disk
        (Fs.add_transfer_block block before_disk)
        (Memory.add_transfer_block block (view before_disk))
    × (Fs.get_transfer_blocks (Fs.add_transfer_block block before_disk).1
        ≡ ok ((view before_disk).transfer_blocks ++ block ∷ []))
finalised_on_file_example =
    finalised_on_file collected before_disk (reachable-IsValid round_salt collected-Reach)
      collected_state some_signed All-IsAugmented
      (record { opens = refl; locks = refl; writes = refl; unlocks = refl })
