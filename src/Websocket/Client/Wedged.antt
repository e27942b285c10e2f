-- ===== src/Websocket/Client/Wedged.antt =====
-- A client whose batch did not reach the server (send_transaction_batch in
-- src/websocket/client/client.rs).
use stateless_payments.Common.{ℕ, Bytes, ◌≡◌, ◌≢◌, refl, ap, ◌∙◌, true, arith}
use stateless_payments.Common.Words.{Profile}
use stateless_payments.Common.Outcome.{Result, ok, err, panic, on_ok_elim}
use stateless_payments.External.Bls.{Bls}
use stateless_payments.External.Sha2.{Sha256}
use stateless_payments.External.RsMerkle.{RsMerkle}
use stateless_payments.External.Tungstenite.{Tungstenite, WsFrame}
use stateless_payments.Types.PublicKey.{wrapper_Eq}
use stateless_payments.Types.Transaction.{
  TransactionBatch, TransactionProof, SerdeTransaction, sha256_algorithm_hash,
}
use stateless_payments.Types.Errors.{Error, anyhow, batch_currently_pending, batch_already_pending}
use stateless_payments.Types.Balance.{key_Eq}
use stateless_payments.Rollup.Traits.{RollupStateTrait}
use stateless_payments.Wallet.Persist.{Wallet, Files, SerdeWallet}
use stateless_payments.Wallet.Wallet.{
  can_append, append_transaction_to_batch, can_produce, produce_batch, sync_rollup_state,
}
use stateless_payments.Wallet.Wallet
use stateless_payments.Websocket.Messages.{
  WsMessage, SerdeWsMessage, parse_ws_message, c_add_connection, c_send_transaction_batch,
  c_send_transaction_batch_signature, c_send_batch_to_receivers, s_send_transaction_inclusion_proof,
  s_receive_transaction,
}
use stateless_payments.Websocket.Client.{
  Client, SyncState, send_transaction_batch, new_blocks, act_on_sync, get_sync_state, sync_tick,
  handle_message, handle_ws_message, add_receiving_transaction,
}
use stateless_payments.Websocket.Client.Missed.{send_new_blocks_wallet}

module _ ⦃b : Bls⦄ where
  -- The batch waits for a proof, and is this one.
  pub record IsWaiting (batch : TransactionBatch) (wallet : Wallet) : Type 0 where
    pub pending : wallet.batch_is_pending ≡ true
    pub same_batch : wallet.transaction_batch ≡ batch

module _ ⦃b : Bls⦄ ⦃ws : Tungstenite⦄ ⦃w : SerdeWsMessage⦄ where
  -- What comes in is not a proof to sign.
  abbrev pub IsNoProof : Result ws.WsError WsFrame → Type 0
  IsNoProof (ok frame) =
      (proof : TransactionProof)
      → parse_ws_message frame ≢ ok (s_send_transaction_inclusion_proof proof)
  IsNoProof (err e) = Unit
  IsNoProof panic = Unit

module _ ⦃b : Bls⦄ ⦃s : Sha256⦄ ⦃j : SerdeTransaction⦄ ⦃m : RsMerkle sha256_algorithm_hash⦄
    ⦃ws : Tungstenite⦄ ⦃w : SerdeWsMessage⦄ ⦃c : SerdeWallet⦄ (State : Type 0)
    ⦃t : RollupStateTrait State⦄ where
  -- What a client does while no proof to sign comes in. The contract may be another at each step.
  pub data Step (self : Client) (files : Files) : Client → Files → Type 0 where
    appends :
        (to : b.PublicKey) (amount : ℕ) (salt : Bytes)
        → Step self files
            (record self { wallet = (append_transaction_to_batch to amount salt self.wallet).1 })
            files
    sends : Step self files (send_transaction_batch self).1 files
    ticks :
        (profile : Profile) (rollup_state : State) (last : SyncState)
        → Step self files (sync_tick profile self.wallet.public_key rollup_state last self).1 files
    receives :
        (rollup_state : State) (received : Result ws.WsError WsFrame)
        → IsNoProof received
        → Step self files
            (handle_ws_message rollup_state received self files).1.0
            (handle_ws_message rollup_state received self files).1.1

  pub data Runs (self : Client) (files : Files) : Client → Files → Type 0 where
    here : Runs self files self files
    next :
        {d : Client} {g : Files} {e : Client} {h : Files}
        → Runs self files d g
        → Step d g e h
        → Runs self files e h

  module _ (batch : TransactionBatch) where
    act_on_sync-IsWaiting :
        (profile : Profile) (rollup_state : State) (last now : SyncState) (self : Client)
        → IsWaiting batch self.wallet
        → IsWaiting batch (act_on_sync profile rollup_state last now self).1.wallet
    unfolding act_on_sync sync_rollup_state
    act_on_sync-IsWaiting profile rollup_state last now self v =
        ground
          (arith, send_new_blocks_wallet (new_blocks last.transfer_blocks now.transfer_blocks) self)

    tick-IsWaiting :
        (profile : Profile) (pk : b.PublicKey) (rollup_state : State) (last : SyncState)
        (self : Client)
        → IsWaiting batch self.wallet
        → IsWaiting batch (sync_tick profile pk rollup_state last self).1.wallet
    unfolding sync_tick
    tick-IsWaiting profile pk rollup_state last self v =
        on_ok_elim (λ x. IsWaiting batch x.1.wallet) (get_sync_state pk rollup_state) self _
          (λ e. v) v
          (λ now read.
            let acted = act_on_sync profile rollup_state last now self in
            let kept = act_on_sync-IsWaiting profile rollup_state last now self v in
            on_ok_elim (λ x. IsWaiting batch x.1.wallet) acted.0 acted.1 _ (λ e. kept) kept
              (λ _ done. kept))

    handle_message-IsWaiting :
        (rollup_state : State) (message : WsMessage) (self : Client) (files : Files)
        → ((proof : TransactionProof) → message ≢ s_send_transaction_inclusion_proof proof)
        → IsWaiting batch self.wallet
        → IsWaiting batch (handle_message rollup_state message self files).1.0.wallet
    unfolding handle_message add_receiving_transaction Wallet.add_receiving_transaction
    handle_message-IsWaiting r (s_send_transaction_inclusion_proof proof) self files other v =
        absurd (other proof refl)
    handle_message-IsWaiting r (s_receive_transaction proof balance_proof) self files other v =
        ground arith
    handle_message-IsWaiting r (c_add_connection pk) self files other v = v
    handle_message-IsWaiting r (c_send_transaction_batch x) self files other v = v
    handle_message-IsWaiting r (c_send_transaction_batch_signature pk x) self files other v = v
    handle_message-IsWaiting r (c_send_batch_to_receivers proof x) self files other v = v

    handle-IsWaiting :
        (rollup_state : State) (received : Result ws.WsError WsFrame) (self : Client)
        (files : Files)
        → IsNoProof received
        → IsWaiting batch self.wallet
        → IsWaiting batch (handle_ws_message rollup_state received self files).1.0.wallet
    unfolding handle_ws_message
    handle-IsWaiting r (ok frame) self files other v =
        on_ok_elim (λ x. IsWaiting batch x.1.0.wallet) (parse_ws_message frame) (self, files)
          (λ message. handle_message r message self files) (λ e. v) v
          (λ message parsed.
            handle_message-IsWaiting r message self files
              (λ proof is_proof. other proof (parsed ∙ ap ok is_proof)) v)
    handle-IsWaiting r (err e) self files other v = v
    handle-IsWaiting r panic self files other v = v

    Step-IsWaiting :
        {d : Client} {g : Files} {e : Client} {h : Files}
        → Step d g e h
        → IsWaiting batch d.wallet
        → IsWaiting batch e.wallet
    unfolding append_transaction_to_batch can_append send_transaction_batch produce_batch
        can_produce
    Step-IsWaiting {d} (appends to amount salt) v = ground arith
    Step-IsWaiting {d} sends v = ground arith
    Step-IsWaiting {d} (ticks profile rollup_state last) v =
        tick-IsWaiting profile d.wallet.public_key rollup_state last d v
    Step-IsWaiting {d} {g = g} (receives rollup_state received other) v =
        handle-IsWaiting rollup_state received d g other v

    Runs-IsWaiting :
        {d : Client} {g : Files} {e : Client} {h : Files}
        → Runs d g e h
        → IsWaiting batch d.wallet
        → IsWaiting batch e.wallet
    Runs-IsWaiting here v = v
    Runs-IsWaiting (next r st) v = Step-IsWaiting st (Runs-IsWaiting r v)

  sent-IsWaiting :
      (self : Client)
      → can_produce self.wallet ≡ ok tt
      → IsWaiting self.wallet.transaction_batch (send_transaction_batch self).1.wallet
  unfolding send_transaction_batch produce_batch
  sent-IsWaiting self producible = ground arith

  -- If a batch is produced and sending it fails, the client keeps it as pending. Until a proof to
  -- sign comes in, whatever the client does, the batch is neither sent again nor added to: both calls
  -- end in an error and change nothing.
  pub failed_send_wedges :
      (self : Client) (files : Files) {e : Error} {d : Client} {g : Files}
      → can_produce self.wallet ≡ ok tt
      → (send_transaction_batch self).0 ≡ err e
      → Runs (send_transaction_batch self).1 files d g
      → (d.wallet.transaction_batch ≡ self.wallet.transaction_batch)
        × (send_transaction_batch d ≡ (err (anyhow batch_already_pending), d))
        × ((to : b.PublicKey) (amount : ℕ) (salt : Bytes)
            → append_transaction_to_batch to amount salt d.wallet
              ≡ (err (anyhow batch_currently_pending), d.wallet))
  unfolding send_transaction_batch produce_batch can_produce append_transaction_to_batch can_append
  failed_send_wedges self files {d = d} producible failed r =
      let batch = self.wallet.transaction_batch in
      let waiting = Runs-IsWaiting batch r (sent-IsWaiting self producible) in
      (
        waiting.same_batch,
        ground (arith, waiting.pending, waiting.same_batch),
        λ to amount salt. ground (arith, waiting.pending),
      )
