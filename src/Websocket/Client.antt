-- ===== src/Websocket/Client.antt =====
-- src/websocket/client/client.rs: a wallet behind the sending half of a websocket. `files` is what the
-- wallet is saved to, `rollup_state` the contract as a call finds it. A client is behind a lock, and
-- each method runs under it. The loop over new blocks, which takes the lock for each block, runs in one
-- piece here.
pub mod Starting
pub mod Ticks
pub mod Missed
pub mod Answers
pub mod Wedged
use stateless_payments.Common.{
  ℕ, Bytes, Bool, not, nat_eq, ◌&&◌, none, some, List, [], ◌∷◌, any, filter, list_eq, ◌==◌,
  if◌then◌else◌,
}
use stateless_payments.Common.Assoc.{lookup}
use stateless_payments.Common.Outcome.{Result, ok, err, panic, on_ok, ◌>>=◌}
use stateless_payments.Common.Words.{Profile}
use stateless_payments.External.Bls.{Bls}
use stateless_payments.External.Sha2.{Sha256}
use stateless_payments.External.RsMerkle.{RsMerkle}
use stateless_payments.External.Tungstenite.{Tungstenite, WsFrame}
use stateless_payments.Types.PublicKey.{wrapper_Eq}
use stateless_payments.Types.Transaction.{TransactionProof, SerdeTransaction, sha256_algorithm_hash}
use stateless_payments.Types.TransferBlock.{TransferBlock}
use stateless_payments.Types.TransferBlock.Equality.{block_Eq}
use stateless_payments.Types.Errors.{
  CrateResult, anyhow, no_proof_for_root, websocket_error, invalid_message_type,
}
use stateless_payments.Types.Balance.{BalanceProof, key_Eq}
use stateless_payments.Rollup.Traits.{
  RollupStateTrait, get_account_deposit_amount, get_account_withdraw_amount,
  get_account_transfer_blocks,
}
use stateless_payments.Wallet.Persist.{Wallet, Files, SerdeWallet}
use stateless_payments.Wallet.Wallet.{
  own_key, produce_batch, validate_and_sign_proof, sync_rollup_state,
}
use stateless_payments.Wallet.Wallet
use stateless_payments.Websocket.Messages.{
  WsMessage, SerdeWsMessage, parse_ws_message, c_add_connection, c_send_transaction_batch,
  c_send_transaction_batch_signature, c_send_batch_to_receivers, s_send_transaction_inclusion_proof,
  s_receive_transaction,
}
use stateless_payments.Websocket.ServerState.{from_ws}

module _ ⦃b : Bls⦄ where
  -- What the automatic sync remembers of the contract.
  pub record SyncState : Type 0 where
    pub deposit_total : ℕ
    pub withdraw_total : ℕ
    pub transfer_blocks : List TransferBlock

  -- `SyncState::eq`, derived
  abbrev pub sync_state_eq : SyncState → SyncState → Bool
  sync_state_eq x y =
      nat_eq x.deposit_total y.deposit_total
      && nat_eq x.withdraw_total y.withdraw_total
      && list_eq x.transfer_blocks y.transfer_blocks

  -- The blocks that were not there before.
  unfoldable pub new_blocks : List TransferBlock → List TransferBlock → List TransferBlock
  new_blocks before now = filter (λ block. not (any (λ old_block. old_block == block) before)) now

  module _ {State : Type 0} ⦃t : RollupStateTrait State⦄ where
    unfoldable pub get_sync_state : b.PublicKey → State → CrateResult SyncState
    unfolding get_account_deposit_amount get_account_withdraw_amount get_account_transfer_blocks
    get_sync_state public_key rollup_state = do
      deposit_total ← get_account_deposit_amount public_key rollup_state
      withdraw_total ← get_account_withdraw_amount public_key rollup_state
      transfer_blocks ← get_account_transfer_blocks public_key rollup_state
      ok (record {
        deposit_total = deposit_total;
        withdraw_total = withdraw_total;
        transfer_blocks = transfer_blocks;
      })

module _ ⦃b : Bls⦄ ⦃ws : Tungstenite⦄ where
  pub record Client : Type 0 where
    pub wallet : Wallet
    pub ws_send : ws.Sink

  module _ ⦃w : SerdeWsMessage⦄ where
    -- `self.ws_send.send(message.into()).await?`
    abbrev pub send : WsMessage → Client → CrateResult (Unit {0}) × Client
    send message self =
        let (sent, sink) = ws.send (w.to_string message) self.ws_send in
        (from_ws sent, record self { ws_send = sink })

    unfoldable pub send_transaction_batch : Client → CrateResult (Unit {0}) × Client
    unfolding produce_batch
    send_transaction_batch self =
        let (produced, wallet) = produce_batch self.wallet in
        let self' = record self { wallet = wallet } in
        on_ok produced self' λ batch. send (c_send_transaction_batch batch) self'

    unfoldable pub send_batch_with_root_to_receivers :
        Bytes → Client → CrateResult (Unit {0}) × Client
    send_batch_with_root_to_receivers root self =
        elim (lookup (own_key root self.wallet) self.wallet.balance_proof) [
          | none ↦ (err (anyhow no_proof_for_root), self)
          | some proof ↦ send (c_send_batch_to_receivers proof self.wallet.balance_proof) self
        ]

    -- The loop over the new blocks.
    unfoldable pub send_new_blocks : List TransferBlock → Client → CrateResult (Unit {0}) × Client
    unfolding send_batch_with_root_to_receivers
    send_new_blocks [] self = (ok tt, self)
    send_new_blocks (block ∷ blocks) self =
        let (sent, self') = send_batch_with_root_to_receivers block.merkle_root self in
        on_ok sent self' λ _. send_new_blocks blocks self'

module _ ⦃b : Bls⦄ ⦃s : Sha256⦄ ⦃j : SerdeTransaction⦄ ⦃m : RsMerkle sha256_algorithm_hash⦄
    ⦃ws : Tungstenite⦄ ⦃w : SerdeWsMessage⦄ where
  module _ {State : Type 0} ⦃t : RollupStateTrait State⦄ where
    -- What the automatic sync does once it has read the contract.
    unfoldable pub act_on_sync :
        Profile → State → SyncState → SyncState → Client → CrateResult (Unit {0}) × Client
    unfolding send_new_blocks new_blocks sync_rollup_state
    act_on_sync profile rollup_state last_sync_state new_sync_state self =
        if sync_state_eq new_sync_state last_sync_state
        then (ok tt, self)
        else if list_eq new_sync_state.transfer_blocks last_sync_state.transfer_blocks
        then (let (synced, wallet) = sync_rollup_state rollup_state profile self.wallet in
            (synced, record self { wallet = wallet }))
        else send_new_blocks
            (new_blocks last_sync_state.transfer_blocks new_sync_state.transfer_blocks) self

    -- The body of the automatic sync's loop after its sleep, which ends in the next
    -- `last_sync_state`. An error ends the loop.
    unfoldable pub sync_tick :
        Profile → b.PublicKey → State → SyncState → Client → CrateResult SyncState × Client
    sync_tick profile public_key rollup_state last_sync_state self =
        on_ok (get_sync_state public_key rollup_state) self λ new_sync_state.
          let (acted, self') =
            act_on_sync profile rollup_state last_sync_state new_sync_state self in
          on_ok acted self' λ _. (ok new_sync_state, self')

    -- The loop, at the contracts that its rounds find.
    unfoldable pub sync_loop :
        Profile → b.PublicKey → List State → SyncState → Client → CrateResult SyncState × Client
    sync_loop profile public_key [] last_sync_state self = (ok last_sync_state, self)
    sync_loop profile public_key (rollup_state ∷ rest) last_sync_state self =
        let (ticked, self') = sync_tick profile public_key rollup_state last_sync_state self in
        on_ok ticked self' λ new_sync_state. sync_loop profile public_key rest new_sync_state self'

    -- `spawn_automatic_sync_thread`, up to its loop.
    unfoldable pub start_automatic_sync : Profile → State → Client → CrateResult SyncState × Client
    start_automatic_sync profile rollup_state self =
        let (synced, wallet) = sync_rollup_state rollup_state profile self.wallet in
        let self' = record self { wallet = wallet } in
        on_ok synced self' λ _. (get_sync_state wallet.public_key rollup_state, self')

    -- `Client::new`, given what `connect_async` ends in.
    unfoldable pub new :
        Profile → State → Result ws.WsError ws.Sink → Wallet → CrateResult (Client × SyncState)
    new profile rollup_state connected wallet =
        let (synced, wallet') = sync_rollup_state rollup_state profile wallet in
        do
          _ ← synced
          socket ← elim connected [
            | ok sink ↦ ok sink
            | err e ↦ err (anyhow websocket_error)
            | panic ↦ panic
          ]
          let (sent, self) =
              send (c_add_connection wallet'.public_key)
                (record { wallet = wallet'; ws_send = socket })
          _ ← sent
          let (started, self') = start_automatic_sync profile rollup_state self
          last_sync_state ← started
          ok (self', last_sync_state)

  module _ ⦃c : SerdeWallet⦄ where
    unfoldable pub validate_sign_proof_send_signature :
        TransactionProof → Client → Files → CrateResult (Unit {0}) × (Client × Files)
    validate_sign_proof_send_signature proof self files =
        let (signed, (wallet, files')) = validate_and_sign_proof proof self.wallet files in
        let self' = record self { wallet = wallet } in
        on_ok signed (self', files')
          λ signature.
            let (sent, self'') =
              send (c_send_transaction_batch_signature wallet.public_key signature) self' in
            (sent, (self'', files'))

    module _ {State : Type 0} ⦃t : RollupStateTrait State⦄ (rollup_state : State) where
      unfoldable pub add_receiving_transaction :
          TransactionProof
          → BalanceProof
          → Client
          → Files
          → CrateResult (Unit {0}) × (Client × Files)
      add_receiving_transaction proof senders_balance_proof self files =
          let (added, (wallet, files')) =
            Wallet.add_receiving_transaction rollup_state proof senders_balance_proof self.wallet
              files in
          (added, (record self { wallet = wallet }, files'))

      -- The `match` of `handle_ws_message`.
      unfoldable pub handle_message :
          WsMessage → Client → Files → CrateResult (Unit {0}) × (Client × Files)
      unfolding validate_sign_proof_send_signature add_receiving_transaction
      handle_message (s_send_transaction_inclusion_proof proof) self files =
          validate_sign_proof_send_signature proof self files
      handle_message (s_receive_transaction proof balance_proof) self files =
          add_receiving_transaction proof balance_proof self files
      handle_message _ self files = (err (anyhow invalid_message_type), (self, files))

      unfoldable pub handle_ws_message :
          Result ws.WsError WsFrame → Client → Files → CrateResult (Unit {0}) × (Client × Files)
      unfolding handle_message parse_ws_message
      handle_ws_message (ok frame) self files =
          on_ok (parse_ws_message frame) (self, files) λ message. handle_message message self files
      handle_ws_message (err e) self files = (err (anyhow websocket_error), (self, files))
      handle_ws_message panic self files = (panic, (self, files))

      -- The loop of `spawn_ws_receive_handler` over what comes in. An error is logged; a panic ends
      -- the task.
      unfoldable pub receive_all :
          List (Result ws.WsError WsFrame) → Client → Files → Client × Files
      unfolding handle_ws_message
      receive_all [] self files = (self, files)
      receive_all (received ∷ rest) self files =
          let (handled, (self', files')) = handle_ws_message received self files in
          let later = receive_all rest self' files' in
          elim handled [ ok x ↦ later | err e ↦ later | panic ↦ (self', files') ]

-- `shutdown`: that closing fails is passed over.
module _ ⦃b : Bls⦄ ⦃ws : Tungstenite⦄ where
  unfoldable pub shutdown : Client → CrateResult (Unit {0}) × Client
  shutdown self = (ok tt, record self { ws_send = (ws.close self.ws_send).1 })
