-- ===== src/Flow/Delivery.antt =====
-- A payment on its way: the sender signs, the block is posted, the sender's client and the server
-- pass the proof on, and the receiver's client takes it (src/wallet, src/aggregator.rs, src/rollup
-- and src/websocket).
use stateless_payments.Common.{
  ℕ, Bytes, zero, suc, ◌+◌, ◌≤◌, ◌≡◌, refl, ap, ◌∙◌, ◌⊎◌, inl, inr, true, none, some, List, [], ◌∷◌,
  map, any, All, All-mono, ◌==◌, if◌then◌else◌, Bool-cases, arith,
}
use stateless_payments.Common.Assoc.{lookup, modify, lookup-modify, lookup-insert_self}
use stateless_payments.Common.Outcome.{ok}
use stateless_payments.External.Bls.{Bls}
use stateless_payments.External.Sha2.{Sha256}
use stateless_payments.External.RsMerkle.{RsMerkle}
use stateless_payments.External.IndexMap.{IndexMap}
use stateless_payments.External.Tungstenite.{Tungstenite}
use stateless_payments.Types.PublicKey.{BlsPublicKeyWrapper, wrap, eq_iff, wrapper_Eq}
use stateless_payments.Types.Transaction.{
  SimpleTransaction, TransactionProof, SerdeTransaction, sha256_algorithm_hash, verify_proof,
}
use stateless_payments.Types.TransferBlock.{TransferBlock}
use stateless_payments.Types.Balance.{BalanceProofKey, BalanceProof, key_Eq}
use stateless_payments.Types.Balance.Serde.{KeyCodec}
use stateless_payments.Aggregator.{
  TxMetadata, collect_signatures, finalised, Aggregator, root, finalise,
}
use stateless_payments.Aggregator.Invariant.{IsValid, entries_of}
use stateless_payments.Aggregator.Finalise.{signers}
use stateless_payments.Rollup.Traits.{total_of}
use stateless_payments.Rollup.Memory.{MockRollupMemory, add_transfer_block, memory_trait}
use stateless_payments.Wallet.Persist.{Wallet, Files, SerdeWallet}
use stateless_payments.Wallet.Persist.RoundTrip.{IsHealthy}
use stateless_payments.Wallet.Utils.{merge_into}
use stateless_payments.Wallet.Utils.Ledger.{sent, received, involved}
use stateless_payments.Wallet.Utils.Balances.{proofs_of, IsConfirmed}
use stateless_payments.Wallet.Wallet
use stateless_payments.Wallet.Wallet.{key_of, own_key, signed_wallet}
use stateless_payments.Wallet.Wallet.Accepting.{insert-All}
use stateless_payments.Flow.Confirm.{IsSigned}
use stateless_payments.Flow.Payment.{IsSpendable, payment_accepted}
use stateless_payments.Websocket.Messages.{
  WsMessage, SerdeWsMessage, c_send_batch_to_receivers, s_receive_transaction,
}
use stateless_payments.Websocket.ServerState.{
  Connection, Connections, ServerState, send_message, send_to_receivers, send_batch_to_receivers,
}
use stateless_payments.Websocket.Handling
use stateless_payments.Websocket.Client.{
  Client, send, send_batch_with_root_to_receivers, add_receiving_transaction, handle_message,
}

module _ ⦃b : Bls⦄ where
  -- How many of these transactions go to a key.
  abbrev pub addressed : b.PublicKey → List SimpleTransaction → ℕ
  addressed pk [] = 0
  addressed pk (tx ∷ txs) =
      if wrap pk == wrap tx.to then suc (addressed pk txs) else addressed pk txs

  addressed_pos :
      (pk : b.PublicKey) (txs : List SimpleTransaction)
      → any (λ tx. b.public_key_eq.beq tx.to pk) txs ≡ true
      → 1 ≤ addressed pk txs
  addressed_pos pk [] h = cc
  addressed_pos pk (tx ∷ txs) h =
      ground (
        arith,
        b.public_key_eq.beq_iff tx.to pk,
        eq_iff (wrap pk) (wrap tx.to),
        addressed_pos pk txs,
      )

  module _ ⦃ws : Tungstenite⦄ ⦃w : SerdeWsMessage⦄ where
    -- A connection on which a message was sent so often.
    abbrev pub sent_times : ℕ → WsMessage → Connection → Connection
    sent_times zero message connection = connection
    sent_times (suc n) message connection = sent_times n message (send_message message connection)

    relayed_lem :
        (message : WsMessage) (pk : b.PublicKey) (txs : List SimpleTransaction) (c : Connections)
        {connection : Connection}
        → lookup (wrap pk) c ≡ some connection
        → lookup (wrap pk) (send_to_receivers message txs c)
          ≡ some (sent_times (addressed pk txs) message connection)
    unfolding send_to_receivers
    relayed_lem message pk [] c h = h
    relayed_lem message pk (tx ∷ txs) c {connection} h =
        let sent_to = modify (wrap tx.to) (send_message message) c in
        let found = lookup-modify (wrap tx.to) (wrap pk) (send_message message) c in
        elim (Bool-cases (wrap pk == wrap tx.to)) [
          | inl same ↦ rw same (
              relayed_lem message pk txs sent_to {connection = send_message message connection}
                (found ∙ rw (same, h) refl))
          | inr other ↦ rw other (
              relayed_lem message pk txs sent_to {connection = connection}
                (found ∙ rw (other, h) refl))
        ]

module _ ⦃b : Bls⦄ ⦃s : Sha256⦄ ⦃j : SerdeTransaction⦄ ⦃m : RsMerkle sha256_algorithm_hash⦄
    ⦃im : IndexMap BlsPublicKeyWrapper TxMetadata⦄ ⦃ws : Tungstenite⦄ ⦃w : SerdeWsMessage⦄
    ⦃c : SerdeWallet⦄ ⦃k : KeyCodec⦄ where
  client_takes :
      (rollup : MockRollupMemory) (p : TransactionProof) (senders : BalanceProof) (self : Client)
      (files : Files) {wallet : Wallet} {files' : Files}
      → Wallet.add_receiving_transaction rollup p senders self.wallet files
        ≡ (ok tt, (wallet, files'))
      → handle_message rollup (s_receive_transaction p senders) self files
        ≡ (ok tt, (record self { wallet = wallet }, files'))
  client_takes rollup p senders self files h =
      unfold handle_message add_receiving_transaction in rw h refl

  sender_sends :
      (merkle_root : Bytes) (self : Client) {p : TransactionProof}
      → lookup (own_key merkle_root self.wallet) self.wallet.balance_proof ≡ some p
      → send_batch_with_root_to_receivers merkle_root self
        ≡ send (c_send_batch_to_receivers p self.wallet.balance_proof) self
  unfolding send_batch_with_root_to_receivers
  sender_sends merkle_root self h = ground arith

  -- The aggregator of a valid round collects signatures, all of the wallets' scheme, the sender's
  -- among them. A sender has stored, as signing does, a proof of its own batch that verifies under the
  -- round's root and has a transaction to the receiver, who has no proof under that root and key. The
  -- contract's blocks verify, every earlier proof of the sender and every proof of the receiver is
  -- confirmed, and for every account that the merged balance proof names, what is received and
  -- deposited covers what is sent and withdrawn, and the rest is below 2^64. The receiver's files can
  -- be written, and its key is connected. Then the round ends in a block. The sender's client sends
  -- the proof with its balance proof; when the server handles that message, it goes out to the
  -- receiver once for each transaction that is addressed to it, and at least once; and when the
  -- receiver's client handles it once the block is posted, its balance is what it received and
  -- deposited less what it sent and withdrew.
  pub delivered :
      {State : Type 0} (a : Aggregator) (rollup : MockRollupMemory) (p : TransactionProof)
      (wallet : Wallet) (sink : ws.Sink) (server : ServerState State) (connection : Connection)
      (receiver : Client) (files : Files)
      → IsValid a
      → a.state ≡ collect_signatures
      → All b.IsAugmented (map (λ x. x.1) (signers (entries_of a)))
      → IsSigned rollup
      → verify_proof p ≡ true
      → root a ≡ ok p.root
      → any (λ v. wrap v.0 == wrap p.batch.from) (signers (entries_of a)) ≡ true
      → p.batch.from ≡ wallet.public_key
      → any (λ tx. b.public_key_eq.beq tx.to receiver.wallet.public_key) p.batch.transactions ≡ true
      → lookup (key_of p) receiver.wallet.balance_proof ≡ none
      → All (IsConfirmed rollup) (proofs_of receiver.wallet.balance_proof)
      → All (IsConfirmed rollup) (proofs_of wallet.balance_proof)
      → lookup (wrap receiver.wallet.public_key) server.connections ≡ some connection
      → IsHealthy files
      → let senders = (signed_wallet p wallet).balance_proof in
        let sender : Client = record { wallet = signed_wallet p wallet; ws_send = sink } in
        let merged = merge_into receiver.wallet.balance_proof senders in
        let ps = proofs_of merged in
        let me = wrap receiver.wallet.public_key in
        let times = addressed receiver.wallet.public_key p.batch.transactions in
        let relayed = Handling.handle_message (c_send_batch_to_receivers p senders) server in
        ((q : BlsPublicKeyWrapper) → involved q ps ≡ true → IsSpendable rollup ps q)
        → (block : TransferBlock) × (n : ℕ) × (files' : Files) × (finalise a
            ≡ (ok block, record a { state = finalised block }))
          × (send_batch_with_root_to_receivers p.root sender
              ≡ send (c_send_batch_to_receivers p senders) sender)
          × (lookup me relayed.1.connections
              ≡ some (sent_times times (s_receive_transaction p senders) connection))
          × (1 ≤ times)
          × (handle_message
                (add_transfer_block block rollup).1
                (s_receive_transaction p senders)
                receiver
                files
              ≡ (
                ok tt,
                (
                  record receiver {
                    wallet = record (receiver.wallet) { balance = n; balance_proof = merged };
                  },
                  files',
                ),
              ))
          × (n + sent me ps + total_of me rollup.withdraw_totals
              ≡ received me ps + total_of me rollup.deposit_totals)
  delivered a rollup p wallet sink server connection receiver files v collecting augmented signed
        included at_root signer owner to_me is_new own theirs connected healthy spendable =
      let senders = (signed_wallet p wallet).balance_proof in
      let kept = lookup-insert_self (own_key p.root wallet) p wallet.balance_proof in
      let at : b.PublicKey → BalanceProofKey =
        λ pk. record { root = p.root; public_key = wrap pk } in
      let in_senders : lookup (key_of p) senders ≡ some p =
        ap (λ pk. lookup (at pk) senders) owner ∙ kept in
      let all_theirs =
        insert-All (λ x. IsConfirmed rollup x ⊎ (x ≡ p)) (own_key p.root wallet) p
          wallet.balance_proof (inr refl)
          (All-mono (proofs_of wallet.balance_proof) (λ x. inl) theirs) in
      let (block, n, files', ends, accepted, balance) =
        payment_accepted a rollup p senders receiver.wallet files v collecting augmented signed
          included at_root signer to_me in_senders is_new own all_theirs healthy spendable in
      (
        block,
        n,
        files',
        ends,
        sender_sends p.root (record { wallet = signed_wallet p wallet; ws_send = sink }) kept,
        unfold Handling.handle_message send_batch_to_receivers in
            relayed_lem (s_receive_transaction p senders) receiver.wallet.public_key
              p.batch.transactions server.connections connected,
        addressed_pos receiver.wallet.public_key p.batch.transactions to_me,
        client_takes (add_transfer_block block rollup).1 p senders receiver files accepted,
        balance,
      )
