-- ===== src/Tests/Servers.antt =====
-- Websocket at a round of one sender.
use stateless_payments.Common.{Bytes, ◌≡◌, ◌≢◌, refl, true, some, [], ◌∷◌, map, All}
use stateless_payments.Common.Assoc.{lookup}
use stateless_payments.Common.Outcome.{ok}
use stateless_payments.External.Tungstenite.{text}
use stateless_payments.Types.PublicKey.{wrap, wrapper_Eq}
use stateless_payments.Types.Transaction.{
  batch_tx_hash, fed_hashes, transaction_tx_hash, transaction_into_hash,
}
use stateless_payments.Types.TransferBlock.{TransferBlock, verify_block, contains_pubkey}
use stateless_payments.Aggregator.{
  opened, collect_signatures, signatures_and_public_keys, generate_proof_for_pubkey,
  check_aggregator_state, can_start, can_add_batch, can_add_signature, root,
}
use stateless_payments.Aggregator
use stateless_payments.Aggregator.Invariant.{entries_of}
use stateless_payments.Aggregator.Finalise.{signers}
use stateless_payments.Rollup.Memory.{MockRollupMemory, memory_trait}
use stateless_payments.Rollup.Memory
use stateless_payments.Websocket.Messages.{
  parse_ws_message, try_from, c_send_transaction_batch, c_send_transaction_batch_signature,
}
use stateless_payments.Websocket.ServerState.{
  Connection, new, add_batch, add_signature, start_collecting_signatures, finalise,
}
use stateless_payments.Websocket.Handling.{handle_message, handle_loop}
use stateless_payments.Websocket.ServerState.InStep.{IsInStep}
use stateless_payments.Websocket.Producer.{
  Running, delay, wake, finish, Runs, here, next, wakes, receives, every_run-IsInStep,
  unsigned_round_wedges,
}
use stateless_payments.Websocket.Posting.{finalise_posts}
use stateless_payments.Tests.Crates.{
  toy_bls, toy_sha256, toy_merkle, toy_index_map, toy_serde_transaction,
}
use stateless_payments.Tests.Texts.{toy_key_codec}
use stateless_payments.Tests.Wire.{toy_tungstenite, toy_to_string, toy_serde_ws}
use stateless_payments.Tests.Scene.{alice, alice_batch, round_salt, before_block}

abbrev pub batch_text : Bytes
batch_text = toy_to_string (c_send_transaction_batch alice_batch)

abbrev pub signature_text : Bytes
signature_text =
    toy_to_string (c_send_transaction_batch_signature alice (alice, 1 ∷ 2 ∷ 30 ∷ 9 ∷ []))

abbrev alice_connection : Connection
alice_connection = record { public_key = alice; ws_send = [] }

abbrev started : Running MockRollupMemory
started = record { phase = delay; server = new before_block round_salt }

abbrev with_batch : Running MockRollupMemory
with_batch = record started { server = (handle_loop (ok (text batch_text)) started.server).1 }

abbrev awaiting : Running MockRollupMemory
awaiting = wake with_batch

abbrev signed : Running MockRollupMemory
signed = record awaiting { server = (handle_loop (ok (text signature_text)) awaiting.server).1 }

signed-Runs : Runs started signed
signed-Runs =
    next (next (next here (receives (ok (text batch_text)))) (wakes refl))
      (receives (ok (text signature_text)))

every_run-IsInStep_example : IsInStep signed.server
every_run-IsInStep_example = every_run-IsInStep before_block round_salt signed-Runs

awaiting_state : awaiting.server.aggregator.state ≡ collect_signatures
unfolding wake handle_loop handle_message parse_ws_message try_from add_batch
    start_collecting_signatures new Aggregator.new Aggregator.add_batch
    Aggregator.start_collecting_signatures can_start can_add_batch check_aggregator_state
awaiting_state = refl

awaiting_unsigned : signers (entries_of awaiting.server.aggregator) ≡ []
unfolding wake handle_loop handle_message parse_ws_message try_from add_batch
    start_collecting_signatures new Aggregator.new Aggregator.add_batch
    Aggregator.start_collecting_signatures can_start can_add_batch check_aggregator_state
    signatures_and_public_keys
awaiting_unsigned = refl

-- The batch comes again after the round that nobody signed.
abbrev after_wedge : Running MockRollupMemory
after_wedge = record (finish [] awaiting) {
  server = (handle_loop (ok (text batch_text)) (finish [] awaiting).server).1;
}

unsigned_round_wedges_example :
    (after_wedge.server.rollup_state ≡ awaiting.server.rollup_state)
    × (after_wedge.server.aggregator.state ≢ opened)
unsigned_round_wedges_example =
    unsigned_round_wedges [] awaiting awaiting_state awaiting_unsigned
      (next here (receives (ok (text batch_text))))

signed_state : signed.server.aggregator.state ≡ collect_signatures
unfolding wake handle_loop handle_message parse_ws_message try_from add_batch add_signature
    start_collecting_signatures new Aggregator.new Aggregator.add_batch Aggregator.add_signature
    Aggregator.start_collecting_signatures can_start can_add_batch can_add_signature root
    check_aggregator_state batch_tx_hash fed_hashes transaction_tx_hash transaction_into_hash
signed_state = refl

signed_flag : lookup (wrap alice) signed.server.connections_with_tx ≡ some true
unfolding wake handle_loop handle_message parse_ws_message try_from add_batch add_signature
    start_collecting_signatures new Aggregator.new Aggregator.add_batch Aggregator.add_signature
    Aggregator.start_collecting_signatures can_start can_add_batch can_add_signature root
    check_aggregator_state batch_tx_hash fed_hashes transaction_tx_hash transaction_into_hash
signed_flag = refl

signed-IsAugmented :
    All toy_bls.IsAugmented (map (λ v. v.1) (signers (entries_of signed.server.aggregator)))
unfolding wake handle_loop handle_message parse_ws_message try_from add_batch add_signature
    start_collecting_signatures new Aggregator.new Aggregator.add_batch Aggregator.add_signature
    Aggregator.start_collecting_signatures can_start can_add_batch can_add_signature root
    check_aggregator_state batch_tx_hash fed_hashes transaction_tx_hash transaction_into_hash
    signatures_and_public_keys
signed-IsAugmented = (tt, tt)

finalise_posts_example :
    (block : TransferBlock) × (finalise [] signed.server ≡ (
      ok tt,
      record (signed.server) {
        connections_with_tx = [];
        aggregator = Aggregator.new [];
        rollup_state = (Memory.add_transfer_block block signed.server.rollup_state).1;
      },
    ))
    × (verify_block block ≡ ok tt)
    × (contains_pubkey block alice ≡ true)
finalise_posts_example =
    finalise_posts [] alice signed.server (every_run-IsInStep before_block round_salt signed-Runs)
      signed_state signed_flag signed-IsAugmented
