-- ===== src/Websocket/Producer.antt =====
-- src/websocket/server/server.rs: the block producer, beside the messages that come in while it
-- sleeps. It holds the lock of the server's state in each of its two calls.
use stateless_payments.Common.{◌≤◌, Bytes, Option, none, some, [], ◌≡◌, ◌≢◌, refl, ap, ◌∙◌, arith}
use stateless_payments.Common.Outcome.{Result, ok, err, panic}
use stateless_payments.External.Bls.{Bls}
use stateless_payments.External.Sha2.{Sha256}
use stateless_payments.External.RsMerkle.{RsMerkle}
use stateless_payments.External.IndexMap.{IndexMap}
use stateless_payments.External.Tungstenite.{Tungstenite, WsFrame}
use stateless_payments.Types.PublicKey.{BlsPublicKeyWrapper, wrapper_Eq}
use stateless_payments.Types.Transaction.{SerdeTransaction, sha256_algorithm_hash}
use stateless_payments.Types.Errors.{CrateResult}
use stateless_payments.Types.Balance.Serde.{KeyCodec}
use stateless_payments.Aggregator.{
  Aggregator, TxMetadata, opened, collect_signatures, new_metadata, set_signature, can_start,
  can_add_batch, can_add_signature, transfer_block_of,
}
use stateless_payments.Aggregator
use stateless_payments.Rollup.Traits.{RollupStateTrait}
use stateless_payments.Websocket.Messages.{SerdeWsMessage}
use stateless_payments.Websocket.ServerState.{
  Connection, ServerState, new, add_connection, remove_connection, start_collecting_signatures,
  finalise,
}
use stateless_payments.Websocket.Handling.{handle_loop}
use stateless_payments.Aggregator.Rounds.{rank, Reach-rank}
use stateless_payments.Aggregator.Finalise.{signers}
use stateless_payments.Aggregator.Invariant.{entries_of}
use stateless_payments.Websocket.ServerState.Kept.{
  add_connection-Kept, remove_connection-Kept, start_collecting_signatures-Kept, handle_loop-Kept,
}
use stateless_payments.Websocket.ServerState.InStep.{
  IsInStep, new-IsInStep, same-IsInStep, start_collecting_signatures-IsInStep, finalise-IsInStep,
  handle_loop-IsInStep, remove_connection-IsInStep,
}

-- Which of its two sleeps the producer is in.
pub data Phase : Type 0 where
  delay waiting_for_signatures : Phase

-- Go on to the second sleep, or `continue`.
abbrev pub phase_after : ⦃b : Bls⦄ → CrateResult (Option (Unit {0})) → Phase
phase_after (ok none) = delay
phase_after (ok (some x)) = waiting_for_signatures
phase_after (err e) = delay
phase_after panic = delay

module _ ⦃b : Bls⦄ ⦃s : Sha256⦄ ⦃j : SerdeTransaction⦄ ⦃m : RsMerkle sha256_algorithm_hash⦄
    ⦃im : IndexMap BlsPublicKeyWrapper TxMetadata⦄ ⦃ws : Tungstenite⦄ where
  pub record Running (State : Type 0) : Type 0 where
    pub phase : Phase
    pub server : ServerState State

module _ ⦃b : Bls⦄ ⦃s : Sha256⦄ ⦃j : SerdeTransaction⦄ ⦃m : RsMerkle sha256_algorithm_hash⦄
    ⦃im : IndexMap BlsPublicKeyWrapper TxMetadata⦄ ⦃ws : Tungstenite⦄ ⦃w : SerdeWsMessage⦄
    ⦃c : KeyCodec⦄ {State : Type 0} ⦃t : RollupStateTrait State⦄ where
  -- The body of the loop, up to the second sleep.
  unfoldable pub wake : Running State → Running State
  unfolding start_collecting_signatures
  wake self =
      let (started, server) = start_collecting_signatures self.server in
      record { phase = phase_after started; server = server }

  -- The rest of the body; an error is only logged.
  unfoldable pub finish : Bytes → Running State → Running State
  unfolding finalise
  finish salt self = record { phase = delay; server = (finalise salt self.server).1 }

  pub data Step (x : Running State) : Running State → Type 0 where
    wakes : x.phase ≡ delay → Step x (wake x)
    finishes : (salt : Bytes) → x.phase ≡ waiting_for_signatures → Step x (finish salt x)
    connects :
        (connection : Connection)
        → Step x (record x { server = add_connection connection x.server })
    disconnects :
        (pk : b.PublicKey) → Step x (record x { server = (remove_connection pk x.server).1 })
    receives :
        (received : Result ws.WsError WsFrame)
        → Step x (record x { server = (handle_loop received x.server).1 })

  pub data Runs (x : Running State) : Running State → Type 0 where
    here : Runs x x
    next : {y z : Running State} → Runs x y → Step y z → Runs x z

  Step-IsInStep : {x y : Running State} → Step x y → IsInStep x.server → IsInStep y.server
  unfolding wake finish add_connection remove_connection
  Step-IsInStep {x} (wakes p) v = start_collecting_signatures-IsInStep x.server v
  Step-IsInStep {x} (finishes salt p) v = finalise-IsInStep salt x.server v
  Step-IsInStep {x} (connects connection) v = same-IsInStep x.server _ _ _ v v.valid refl
  Step-IsInStep {x} (disconnects pk) v = remove_connection-IsInStep pk x.server v
  Step-IsInStep {x} (receives received) v = handle_loop-IsInStep received x.server v

  Runs-IsInStep : {x y : Running State} → Runs x y → IsInStep x.server → IsInStep y.server
  Runs-IsInStep here v = v
  Runs-IsInStep (next r st) v = Step-IsInStep st (Runs-IsInStep r v)

  -- On a server that started anew, whatever clients and the producer do, the table has exactly the
  -- senders of the round and whose signature came in, and the aggregator's own parts agree.
  pub every_run-IsInStep :
      (rollup : State) (salt : Bytes) {x : Running State}
      → Runs (record { phase = delay; server = new rollup salt }) x
      → IsInStep x.server
  every_run-IsInStep rollup salt r = Runs-IsInStep r (new-IsInStep rollup salt)

  -- The producer is back in its delay, but the round is not open.
  abbrev pub IsStuck : Running State → Type 0
  IsStuck x = (x.phase ≡ delay) × (1 ≤ rank x.server.aggregator.state)

  start_refused :
      (x : ServerState State)
      → 1 ≤ rank x.aggregator.state
      → phase_after (start_collecting_signatures x).0 ≡ delay
  unfolding start_collecting_signatures Aggregator.start_collecting_signatures can_start
      Aggregator.check_aggregator_state
  start_refused x h = ground arith

  Step-IsStuck :
      {x y : Running State}
      → Step x y
      → IsStuck x
      → IsStuck y × (y.server.rollup_state ≡ x.server.rollup_state)
  unfolding wake
  Step-IsStuck {x} (wakes p) (d, h) =
      let (r, same) = start_collecting_signatures-Kept x.server in
      ((start_refused x.server h, omega (arith, Reach-rank r)), same)
  Step-IsStuck {x} (finishes salt p) (d, h) = absurd (cc)
  Step-IsStuck {x} (connects connection) (d, h) =
      let (r, same) = add_connection-Kept connection x.server in
      ((d, omega (arith, Reach-rank r)), same)
  Step-IsStuck {x} (disconnects pk) (d, h) =
      let (r, same) = remove_connection-Kept pk x.server in ((d, omega (arith, Reach-rank r)), same)
  Step-IsStuck {x} (receives received) (d, h) =
      let (r, same) = handle_loop-Kept received x.server in ((d, omega (arith, Reach-rank r)), same)

  IsStuck-stays :
      {x y : Running State}
      → Runs x y
      → IsStuck x
      → IsStuck y × (y.server.rollup_state ≡ x.server.rollup_state)
  IsStuck-stays here h = (h, refl)
  IsStuck-stays (next r st) h =
      let (stuck, same) = IsStuck-stays r h in
      let (still, kept) = Step-IsStuck st stuck in (still, kept ∙ same)

  finalise_fails :
      (salt : Bytes) (x : ServerState State)
      → x.aggregator.state ≡ collect_signatures
      → signers (entries_of x.aggregator) ≡ []
      → (finalise salt x).1 ≡ x
  unfolding finalise Aggregator.finalise transfer_block_of Aggregator.check_aggregator_state
  finalise_fails salt x collecting nobody = ground arith

  -- If no signature came in by the time the producer finalises a collecting round, no block is posted
  -- again: after whatever clients and the producer do, the contract is what it was, and the round is
  -- not open for batches.
  pub unsigned_round_wedges :
      (salt : Bytes) (x : Running State) {y : Running State}
      → x.server.aggregator.state ≡ collect_signatures
      → signers (entries_of x.server.aggregator) ≡ []
      → Runs (finish salt x) y
      → (y.server.rollup_state ≡ x.server.rollup_state) × (y.server.aggregator.state ≢ opened)
  unfolding finish
  unsigned_round_wedges salt x {y} collecting nobody r =
      let failed = finalise_fails salt x.server collecting nobody in
      let (stuck, same) = IsStuck-stays r (refl, rw (failed, collecting) (omega arith)) in
      (same ∙ ap (λ z. z.rollup_state) failed, λ e. not_open stuck.1 e)
    where
      not_open : 1 ≤ rank y.server.aggregator.state → y.server.aggregator.state ≡ opened → ⊥
      not_open h e = omega (arith, rw e at h)
