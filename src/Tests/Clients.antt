-- ===== src/Tests/Clients.antt =====
-- Websocket.Client and Websocket.Connections at alice's client.
use stateless_payments.Common.{◌≡◌, refl, ap, true, false, none, some, [], ◌∷◌, length, arith}
use stateless_payments.Common.Assoc.{contains_key, modify}
use stateless_payments.Common.Outcome.{ok}
use stateless_payments.Common.Words.{debug}
use stateless_payments.External.Tungstenite.{text}
use stateless_payments.Types.PublicKey.{wrap, wrapper_Eq}
use stateless_payments.Types.Transaction.{
  TransactionProof, verify_proof, batch_tx_hash, fed_hashes, transaction_tx_hash,
  transaction_into_hash,
}
use stateless_payments.Types.TransferBlock.{
  contains_pubkey, signature_contains, verify_block, verify_signature,
}
use stateless_payments.Types.Balance.{key_Eq}
use stateless_payments.Common.Int.{◌+ℤ◌, ◌-ℤ◌}
use stateless_payments.Rollup.Traits.{
  get_account_transfer_blocks, get_account_deposit_amount, get_account_withdraw_amount,
  get_transfer_block_for_merkle_root_and_pubkey,
}
use stateless_payments.Wallet.Utils.{
  calculate_balances_and_validate_balance_proof, unchecked_balances_of, checked_balances,
  checked_balance, check_proof, move_amounts,
}
use stateless_payments.Aggregator.{set_signature}
use stateless_payments.Aggregator.Rounds.{reachable-IsValid}
use stateless_payments.Rollup.Memory.{MockRollupMemory, memory_trait}
use stateless_payments.Wallet.Persist.{Files}
use stateless_payments.Wallet.Wallet.{signed_wallet}
use stateless_payments.Websocket.Messages.{
  parse_ws_message, try_from, c_send_batch_to_receivers, s_send_transaction_inclusion_proof,
  c_add_connection,
}
use stateless_payments.Websocket.ServerState.{
  Connection, ServerState, send_message, send_proof, new,
}
use stateless_payments.Websocket.Handling.{handle_loop}
use stateless_payments.Websocket.Client
use stateless_payments.Websocket.Client.Starting.{started_lem}
use stateless_payments.Wallet.Wallet.{synced_balance}
use stateless_payments.Websocket.Client.{
  Client, SyncState, send_new_blocks, act_on_sync, get_sync_state, sync_tick, sync_loop,
  handle_ws_message,
}
use stateless_payments.Websocket.Client.Ticks.{IsSame, Grows, sync_loop-sends_once}
use stateless_payments.Websocket.Client.Missed.{deposit_missed}
use stateless_payments.Websocket.Client.Answers.{proof_text, signature_text, IsAwaited, answered}
use stateless_payments.Websocket.Connections.{
  first_message, announced, Serving, open_connection, clean_up, serve, is_listed,
}
use stateless_payments.Websocket.Connections
use stateless_payments.Websocket.Connections.Served.{IsServed, every_run-IsServed}
use stateless_payments.Websocket.Connections.Late.{late_removal}
use stateless_payments.Tests.Crates.{
  toy_bls, toy_sha256, toy_merkle, toy_index_map, toy_serde_transaction, ToySignature,
}
use stateless_payments.Tests.Texts.{toy_key_codec, toy_serde_wallet}
use stateless_payments.Tests.Wire.{toy_tungstenite, toy_serde_ws, toy_to_string}
use stateless_payments.Tests.Scene.{
  alice, alice_proof, alice_proofs, round_salt, round_block, collecting, collecting-Reach,
  before_block, after_block, alice_wallet, wallet_of, no_faults,
}
use stateless_payments.Tests.Rounds.{
  alice_metadata, alice_wallet-IsValid, collecting_state, collecting_metadata,
}
use stateless_payments.Tests.Wallets.{no_faults-IsHealthy}

abbrev connection : Connection
connection = record { public_key = alice; ws_send = [] }

abbrev server : ServerState MockRollupMemory
server = record {
  connections = (wrap alice, connection) ∷ [];
  connections_with_tx = (wrap alice, false) ∷ [];
  aggregator = collecting;
  rollup_state = before_block;
}

abbrev client : Client
client = record { wallet = alice_wallet; ws_send = [] }

awaited : IsAwaited server client alice_metadata connection
awaited = record {
  valid_round = reachable-IsValid round_salt collecting-Reach;
  collecting = collecting_state;
  connected = refl;
  own_connection = refl;
  valid_wallet = alice_wallet-IsValid;
  pending = refl;
  entered = collecting_metadata;
  same_batch = refl;
}

answered_example :
    (proof : TransactionProof) × (signature : ToySignature) × (files' : Files) × (send_proof
        collecting
        (wrap alice)
        server.connections
      ≡ modify
          (wrap alice)
          (send_message (s_send_transaction_inclusion_proof proof))
          server.connections)
    × (handle_ws_message before_block (ok (text (proof_text proof))) client no_faults ≡ (
      ok tt,
      (
        record {
          wallet = signed_wallet proof alice_wallet;
          ws_send = signature_text alice signature ∷ [];
        },
        files',
      ),
    ))
    × (handle_loop (ok (text (signature_text alice signature))) server ≡ (
      ok tt,
      record server {
        aggregator = record collecting {
          tx_hash_to_metadata =
              toy_index_map.modify
                (wrap alice)
                (set_signature signature)
                collecting.tx_hash_to_metadata;
        };
        connections_with_tx = (wrap alice, true) ∷ [];
      },
    ))
answered_example =
    answered before_block server client no_faults alice_metadata connection awaited
      (λ message. ((alice, message), refl)) no_faults-IsHealthy (λ message. refl)

-- A deposit behind the block.
abbrev deposited_block : MockRollupMemory
deposited_block = record after_block { deposit_totals = (wrap alice, 150) ∷ [] }

abbrev syncing : Client
syncing = record {
  wallet = record (wallet_of alice) { balance = 60; balance_proof = alice_proofs };
  ws_send = [];
}

abbrev before_sync : SyncState
before_sync = record { deposit_total = 100; withdraw_total = 10; transfer_blocks = [] }

abbrev after_sync : SyncState
after_sync = record { deposit_total = 150; withdraw_total = 10; transfer_blocks = round_block ∷ [] }

abbrev sent_client : Client
sent_client = record syncing {
  ws_send = toy_to_string (c_send_batch_to_receivers alice_proof alice_proofs) ∷ [];
}

abbrev synced_client : Client
synced_client = record sent_client { wallet = record (syncing.wallet) { balance = 110 } }

grows : Grows debug alice [] (after_block ∷ deposited_block ∷ []) (round_block ∷ [])
unfolding get_account_transfer_blocks contains_pubkey signature_contains
grows = (round_block ∷ [], [], refl, (refl, tt), ([], [], refl, tt, refl, refl), refl)

looped :
    sync_loop debug alice (after_block ∷ deposited_block ∷ []) before_sync syncing
    ≡ (ok after_sync, synced_client)
unfolding sync_loop sync_tick act_on_sync get_sync_state
    calculate_balances_and_validate_balance_proof unchecked_balances_of checked_balances
    checked_balance check_proof move_amounts verify_proof batch_tx_hash fed_hashes
    transaction_tx_hash transaction_into_hash get_account_deposit_amount get_account_withdraw_amount
    get_transfer_block_for_merkle_root_and_pubkey verify_block verify_signature contains_pubkey
    signature_contains ◌+ℤ◌ ◌-ℤ◌
looped = refl

sync_loop-sends_once_example :
    (d : Client) × (send_new_blocks (round_block ∷ []) syncing ≡ (ok tt, d))
    × IsSame d synced_client
    × (round_block ∷ [] ≡ round_block ∷ [])
sync_loop-sends_once_example =
    sync_loop-sends_once debug alice (after_block ∷ deposited_block ∷ []) before_sync syncing
      (round_block ∷ []) grows looped

ticked : sync_tick debug alice deposited_block before_sync syncing ≡ (ok after_sync, sent_client)
unfolding sync_tick act_on_sync get_sync_state get_account_deposit_amount
    get_account_withdraw_amount contains_pubkey signature_contains
ticked = refl

deposit_missed_example :
    (sent_client.wallet ≡ syncing.wallet)
    × (sync_tick debug alice deposited_block after_sync sent_client ≡ (ok after_sync, sent_client))
deposit_missed_example =
    deposit_missed debug alice deposited_block before_sync syncing ticked
      (λ h. omega (arith, ap length h))

abbrev idle_server : Serving MockRollupMemory
idle_server = record { server = new before_block round_salt; tasks = []; removals = [] }

abbrev alice_opens : Serving MockRollupMemory
alice_opens =
    (open_connection (some (ok (text (toy_to_string (c_add_connection alice))))) [] idle_server).1

abbrev alice_leaves : Serving MockRollupMemory
alice_leaves = serve alice none alice_opens

alice_listed : is_listed alice alice_opens.tasks ≡ true
unfolding open_connection first_message announced parse_ws_message try_from
alice_listed = refl

alice_leaves-Runs : Connections.Runs idle_server alice_leaves
alice_leaves-Runs =
    Connections.next (Connections.next Connections.here (Connections.opens _ []))
      (Connections.serves alice none alice_listed)

every_run-IsServed_example : IsServed alice_leaves
unfolding new
every_run-IsServed_example =
    every_run-IsServed (λ sink. refl) (new before_block round_salt) refl alice_leaves-Runs

alice_leaves-IsServed : IsServed alice_leaves
unfolding new
alice_leaves-IsServed =
    every_run-IsServed (λ sink. refl) (new before_block round_salt) refl alice_leaves-Runs

late_removal_example :
    let frame = text (toy_to_string (c_add_connection alice)) in
    let opened = open_connection (some (ok frame)) [] alice_leaves in
    let cut_off = clean_up alice opened.1 in
    (opened.0 ≡ ok tt)
    × (contains_key (wrap alice) opened.1.server.connections ≡ true)
    × (contains_key (wrap alice) cut_off.server.connections ≡ false)
    × (is_listed alice cut_off.tasks ≡ true)
late_removal_example = late_removal (λ sink. refl) alice [] alice_leaves alice_leaves-IsServed

-- The client that starts once the block is posted.
abbrev started_client : Client
started_client = record {
  wallet = record (wallet_of alice) { balance = 60; balance_proof = alice_proofs };
  ws_send = toy_to_string (c_add_connection alice) ∷ [];
}

abbrev at_block : SyncState
at_block = record { deposit_total = 100; withdraw_total = 10; transfer_blocks = round_block ∷ [] }

calculated :
    synced_balance after_block debug (record (wallet_of alice) { balance_proof = alice_proofs })
    ≡ ok 60
unfolding synced_balance calculate_balances_and_validate_balance_proof unchecked_balances_of
    checked_balances checked_balance check_proof move_amounts verify_proof batch_tx_hash fed_hashes
    transaction_tx_hash transaction_into_hash get_account_deposit_amount get_account_withdraw_amount
    get_transfer_block_for_merkle_root_and_pubkey verify_block verify_signature contains_pubkey
    signature_contains ◌+ℤ◌ ◌-ℤ◌
calculated = refl

read_at_block : get_sync_state alice after_block ≡ ok at_block
unfolding get_sync_state get_account_deposit_amount get_account_withdraw_amount
    get_account_transfer_blocks contains_pubkey signature_contains
read_at_block = refl

started_lem_example :
    (Client.new debug after_block
        (ok [])
        (record (wallet_of alice) { balance_proof = alice_proofs })
      ≡ ok (started_client, at_block))
    × (first_message (some (ok (text (toy_to_string (c_add_connection alice))))) ≡ ok alice)
    × (sync_tick debug alice after_block at_block started_client ≡ (ok at_block, started_client))
started_lem_example =
    started_lem debug after_block [] (record (wallet_of alice) { balance_proof = alice_proofs })
      calculated read_at_block refl
