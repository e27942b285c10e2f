-- ===== src/Websocket/Client/Missed.antt =====
-- What the automatic sync of a client leaves out (spawn_automatic_sync_thread in
-- src/websocket/client/client.rs).
use stateless_payments.Common.{◌≡◌, ◌≢◌, refl, true, List, [], ◌∷◌, list_eq_iff, arith}
use stateless_payments.Common.Words.{Profile}
use stateless_payments.Common.Outcome.{ok}
use stateless_payments.External.Bls.{Bls}
use stateless_payments.External.Sha2.{Sha256}
use stateless_payments.External.RsMerkle.{RsMerkle}
use stateless_payments.External.Tungstenite.{Tungstenite}
use stateless_payments.Types.PublicKey.{wrapper_Eq}
use stateless_payments.Types.Transaction.{SerdeTransaction, sha256_algorithm_hash}
use stateless_payments.Types.TransferBlock.{TransferBlock}
use stateless_payments.Types.TransferBlock.Equality.{block_Eq}
use stateless_payments.Types.Balance.{key_Eq}
use stateless_payments.Rollup.Traits.{RollupStateTrait}
use stateless_payments.Websocket.Messages.{SerdeWsMessage}
use stateless_payments.Websocket.Client.{
  Client, SyncState, send_batch_with_root_to_receivers, sync_state_eq, new_blocks, send_new_blocks,
  act_on_sync, sync_tick,
}
use stateless_payments.Websocket.Client.Ticks.{sync_tick_inv}

pub sync_state_eq_refl : ⦃b : Bls⦄ (x : SyncState) → sync_state_eq x x ≡ true
sync_state_eq_refl x = ground (arith, list_eq_iff x.transfer_blocks x.transfer_blocks)

module _ ⦃b : Bls⦄ ⦃ws : Tungstenite⦄ ⦃w : SerdeWsMessage⦄ where
  pub send_new_blocks_wallet :
      (blocks : List TransferBlock) (self : Client)
      → (send_new_blocks blocks self).1.wallet ≡ self.wallet
  unfolding send_new_blocks send_batch_with_root_to_receivers
  send_new_blocks_wallet [] self = refl
  send_new_blocks_wallet (block ∷ blocks) self = ground (
    arith,
    send_new_blocks_wallet blocks (send_batch_with_root_to_receivers block.merkle_root self).1,
  )

module _ ⦃b : Bls⦄ ⦃s : Sha256⦄ ⦃j : SerdeTransaction⦄ ⦃m : RsMerkle sha256_algorithm_hash⦄
    ⦃ws : Tungstenite⦄ ⦃w : SerdeWsMessage⦄ {State : Type 0} ⦃t : RollupStateTrait State⦄ where
  -- A round of the automatic sync that finds other blocks leaves the wallet as it was, also when a
  -- deposit or a withdrawal came with them, and the next round at the same contract does nothing.
  pub deposit_missed :
      (profile : Profile) (pk : b.PublicKey) (rollup : State) (last : SyncState) (self : Client)
      {now : SyncState} {self' : Client}
      → sync_tick profile pk rollup last self ≡ (ok now, self')
      → now.transfer_blocks ≢ last.transfer_blocks
      → (self'.wallet ≡ self.wallet) × (sync_tick profile pk rollup now self' ≡ (ok now, self'))
  unfolding sync_tick act_on_sync
  deposit_missed profile pk rollup last self {now} {self'} h differ =
      let (read, acted) = sync_tick_inv profile pk rollup last self h in
      (
        ground (
          arith,
          list_eq_iff now.transfer_blocks last.transfer_blocks,
          send_new_blocks_wallet (new_blocks last.transfer_blocks now.transfer_blocks) self,
        ),
        rw read (ground (arith, sync_state_eq_refl now)),
      )
