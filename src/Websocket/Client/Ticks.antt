-- ===== src/Websocket/Client/Ticks.antt =====
-- The automatic sync of a client, round after round (spawn_automatic_sync_thread in
-- src/websocket/client/client.rs).
use stateless_payments.Common.{
  Bytes, ◌≡◌, refl, sym, ap, subst, ◌∙◌, inl, inr, Bool, true, false, not, List, [], ◌∷◌, ◌++◌,
  append-nil, append_assoc, any, filter, length, length-append, All, ◌==◌, ==_refl, list_eq,
  list_eq_iff, Bool-cases, arith,
}
use stateless_payments.Common.Words.{Profile}
use stateless_payments.Common.Outcome.{ok, on_ok_inv, on_ok-eq-ok}
use stateless_payments.External.Bls.{Bls}
use stateless_payments.External.Sha2.{Sha256}
use stateless_payments.External.RsMerkle.{RsMerkle}
use stateless_payments.External.Tungstenite.{Tungstenite}
use stateless_payments.Types.PublicKey.{wrapper_Eq}
use stateless_payments.Types.Transaction.{SerdeTransaction, sha256_algorithm_hash}
use stateless_payments.Types.TransferBlock.{TransferBlock}
use stateless_payments.Types.TransferBlock.Equality.{block_Eq}
use stateless_payments.Types.Balance.{key_Eq}
use stateless_payments.Rollup.Traits.{RollupStateTrait, get_account_transfer_blocks}
use stateless_payments.Wallet.Persist.{Wallet}
use stateless_payments.Wallet.Wallet.{sync_rollup_state}
use stateless_payments.Websocket.Messages.{SerdeWsMessage}
use stateless_payments.Websocket.Client.{
  Client, SyncState, new_blocks, send_batch_with_root_to_receivers, send_new_blocks, get_sync_state,
  act_on_sync, sync_tick, sync_loop,
}

append_same : {A : Type 0} (xs ys : List A) → xs ++ ys ≡ xs → ys ≡ []
append_same xs [] e = refl
append_same xs (y ∷ ys) e = absurd (omega (arith, ap length e, length-append xs (y ∷ ys)))

module _ ⦃b : Bls⦄ where
  -- No block of the second list is in the first.
  abbrev pub IsFresh : List TransferBlock → List TransferBlock → Type 0
  IsFresh before = All (λ block. any (λ old_block. old_block == block) before ≡ false)

  any-middle :
      (xs ys : List TransferBlock) (x : TransferBlock)
      → any (λ old_block. old_block == x) (xs ++ x ∷ ys) ≡ true
  any-middle [] ys x = rw (==_refl x) refl
  any-middle (y ∷ xs) ys x = ground (arith, any-middle xs ys x)

  filter_old :
      (front rest : List TransferBlock)
      → filter (λ block. not (any (λ old_block. old_block == block) (front ++ rest))) rest ≡ []
  filter_old front [] = refl
  filter_old front (x ∷ rest) =
      let later = filter_old (front ++ x ∷ []) rest in
      rw (any-middle front rest x) (rw (append_assoc front (x ∷ []) rest) at later)

  filter_fresh :
      (before more : List TransferBlock)
      → IsFresh before more
      → filter (λ block. not (any (λ old_block. old_block == block) before)) more ≡ more
  filter_fresh before [] h = refl
  filter_fresh before (x ∷ more) h = rw (h.0, filter_fresh before more h.1) refl

  filter-append :
      {A : Type 0} (f : A → Bool) (xs ys : List A)
      → filter f (xs ++ ys) ≡ filter f xs ++ filter f ys
  filter-append f [] ys = refl
  filter-append f (x ∷ xs) ys = ground (arith, filter-append f xs ys)

  new_blocks-append :
      (before more : List TransferBlock)
      → IsFresh before more
      → new_blocks before (before ++ more) ≡ more
  unfolding new_blocks
  new_blocks-append before more h =
      filter-append _ before more ∙ rw (filter_old [] before, filter_fresh before more h) refl

module _ ⦃b : Bls⦄ ⦃ws : Tungstenite⦄ where
  -- Clients with the same websocket, key and balance proof.
  pub record IsSame (c d : Client) : Type 0 where
    pub same_sink : c.ws_send ≡ d.ws_send
    pub same_key : c.wallet.public_key ≡ d.wallet.public_key
    pub same_proofs : c.wallet.balance_proof ≡ d.wallet.balance_proof

  IsSame-refl : (c : Client) → IsSame c c
  IsSame-refl c = record { same_sink = refl; same_key = refl; same_proofs = refl }

  IsSame-sym : {c d : Client} → IsSame c d → IsSame d c
  IsSame-sym x = record {
    same_sink = sym x.same_sink;
    same_key = sym x.same_key;
    same_proofs = sym x.same_proofs;
  }

  IsSame-trans : {c d e : Client} → IsSame c d → IsSame d e → IsSame c e
  IsSame-trans x y = record {
    same_sink = x.same_sink ∙ y.same_sink;
    same_key = x.same_key ∙ y.same_key;
    same_proofs = x.same_proofs ∙ y.same_proofs;
  }

  module _ ⦃w : SerdeWsMessage⦄ where
    send_root-IsSame :
        (root : Bytes) {c d c' : Client}
        → IsSame c d
        → send_batch_with_root_to_receivers root c ≡ (ok tt, c')
        → (d' : Client) × (send_batch_with_root_to_receivers root d ≡ (ok tt, d')) × IsSame c' d'
    unfolding send_batch_with_root_to_receivers
    send_root-IsSame root {c} {d} {c'} s h =
        (record d { ws_send = c'.ws_send }, ground arith, ground arith)

    send_cons_inv :
        (block : TransferBlock) (blocks : List TransferBlock) (c : Client) {e : Client}
        → send_new_blocks (block ∷ blocks) c ≡ (ok tt, e)
        → (d : Client) × (send_batch_with_root_to_receivers block.merkle_root c ≡ (ok tt, d))
          × (send_new_blocks blocks d ≡ (ok tt, e))
    unfolding send_new_blocks
    send_cons_inv block blocks c h =
        let sent = send_batch_with_root_to_receivers block.merkle_root c in
        let (u, done, later) = on_ok_inv sent.0 sent.1 (λ _. send_new_blocks blocks sent.1) h in
        (sent.1, ground arith, later)

    send_new_blocks-IsSame :
        (blocks : List TransferBlock) {c d c' : Client}
        → IsSame c d
        → send_new_blocks blocks c ≡ (ok tt, c')
        → (d' : Client) × (send_new_blocks blocks d ≡ (ok tt, d')) × IsSame c' d'
    unfolding send_new_blocks
    send_new_blocks-IsSame [] {c} {d} s h = (d, refl, ground arith)
    send_new_blocks-IsSame (block ∷ blocks) {c} {d} s h =
        let (x, sent, later) = send_cons_inv block blocks c h in
        let (y, sent', s') = send_root-IsSame block.merkle_root s sent in
        let (d', later', s'') = send_new_blocks-IsSame blocks s' later in
        (d', rw (sent', later') refl, s'')

    send_new_blocks-append :
        (xs ys : List TransferBlock) (c : Client) {d e : Client}
        → send_new_blocks xs c ≡ (ok tt, d)
        → send_new_blocks ys d ≡ (ok tt, e)
        → send_new_blocks (xs ++ ys) c ≡ (ok tt, e)
    unfolding send_new_blocks
    send_new_blocks-append [] ys c h k = ground arith
    send_new_blocks-append (x ∷ xs) ys c h k =
        let (y, sent, later) = send_cons_inv x xs c h in
        rw (sent, send_new_blocks-append xs ys y later k) refl

module _ ⦃b : Bls⦄ ⦃s : Sha256⦄ ⦃j : SerdeTransaction⦄ ⦃m : RsMerkle sha256_algorithm_hash⦄
    ⦃ws : Tungstenite⦄ ⦃w : SerdeWsMessage⦄ {State : Type 0} ⦃t : RollupStateTrait State⦄
    (profile : Profile) (pk : b.PublicKey) where
  -- At each round the account's blocks are those of the round before and new ones; `added` are all
  -- the new ones.
  abbrev pub Grows : List TransferBlock → List State → List TransferBlock → Type 0
  Grows before [] added = added ≡ []
  Grows before (rollup ∷ rest) added =
      (more : List TransferBlock) × (later : List TransferBlock) × (get_account_transfer_blocks pk
          rollup
        ≡ ok (before ++ more))
      × IsFresh before more
      × Grows (before ++ more) rest later
      × (added ≡ more ++ later)

  get_sync_state_blocks :
      (rollup : State) {x : SyncState}
      → get_sync_state pk rollup ≡ ok x
      → get_account_transfer_blocks pk rollup ≡ ok x.transfer_blocks
  unfolding get_sync_state
  get_sync_state_blocks rollup h = ground arith

  sync_keeps :
      (rollup : State) (wallet : Wallet)
      → let wallet' = (sync_rollup_state rollup profile wallet).1 in
        (wallet.public_key ≡ wallet'.public_key) × (wallet.balance_proof ≡ wallet'.balance_proof)
  unfolding sync_rollup_state
  sync_keeps rollup wallet = ground arith

  pub sync_tick_inv :
      (rollup : State) (last : SyncState) (self : Client) {next : SyncState} {self' : Client}
      → sync_tick profile pk rollup last self ≡ (ok next, self')
      → (get_sync_state pk rollup ≡ ok next)
        × (act_on_sync profile rollup last next self ≡ (ok tt, self'))
  unfolding sync_tick
  sync_tick_inv rollup last self h =
      let (x, read, rest) = on_ok_inv (get_sync_state pk rollup) self _ h in
      let acted = act_on_sync profile rollup last x self in
      let (u, done, next_eq, self_eq) = on_ok-eq-ok acted.0 acted.1 (λ _. x) (λ _. acted.1) rest in
      (
        read ∙ ap ok (sym next_eq),
        ap (λ y. act_on_sync profile rollup last y self) next_eq ∙ ground (arith, done, self_eq),
      )

  sync_loop_inv :
      (rollup : State) (rest : List State) (last : SyncState) (self : Client) {now : SyncState}
      {self' : Client}
      → sync_loop profile pk (rollup ∷ rest) last self ≡ (ok now, self')
      → (next : SyncState) × (mid : Client) × (sync_tick profile pk rollup last self
          ≡ (ok next, mid))
        × (sync_loop profile pk rest next mid ≡ (ok now, self'))
  unfolding sync_loop
  sync_loop_inv rollup rest last self h =
      let ticked = sync_tick profile pk rollup last self in
      let (next, done, looped) = on_ok_inv ticked.0 ticked.1 _ h in
      (next, ticked.1, ground (arith, done), looped)

  act_on_sync-sends :
      (rollup : State) (last now : SyncState) (self : Client) (more : List TransferBlock)
      {self' : Client}
      → now.transfer_blocks ≡ last.transfer_blocks ++ more
      → IsFresh last.transfer_blocks more
      → act_on_sync profile rollup last now self ≡ (ok tt, self')
      → (d : Client) × (send_new_blocks more self ≡ (ok tt, d)) × IsSame d self'
  unfolding act_on_sync sync_rollup_state
  act_on_sync-sends rollup last now self more {self'} grown fresh h =
      elim (Bool-cases (list_eq now.transfer_blocks last.transfer_blocks)) [
        | inl same ↦
            let none_new : more ≡ [] =
              append_same last.transfer_blocks more
                (sym grown ∙ (list_eq_iff now.transfer_blocks last.transfer_blocks).0 same) in
            (
              self,
              rw none_new (unfold send_new_blocks in refl),
              ground (arith, same, sync_keeps rollup self.wallet),
            )
        | inr differ ↦
            let only : new_blocks last.transfer_blocks now.transfer_blocks ≡ more =
              ap (new_blocks last.transfer_blocks) grown
              ∙ new_blocks-append last.transfer_blocks more fresh in
            (self', rw (← only) (ground (arith, differ)), IsSame-refl self')
      ]

  -- If every round of the automatic sync ends well and the account's blocks only grow, each by new
  -- ones, the websocket is left as by one pass over all the new blocks in their order: each is
  -- sent to its receivers once. The client's key and balance proof stay.
  pub sync_loop-sends_once :
      (rollups : List State) (last : SyncState) (self : Client) (added : List TransferBlock)
      {now : SyncState} {self' : Client}
      → Grows last.transfer_blocks rollups added
      → sync_loop profile pk rollups last self ≡ (ok now, self')
      → (d : Client) × (send_new_blocks added self ≡ (ok tt, d))
        × IsSame d self'
        × (now.transfer_blocks ≡ last.transfer_blocks ++ added)
  unfolding sync_loop sync_tick
  sync_loop-sends_once [] last self added g h = (
    self,
    rw g (unfold send_new_blocks in refl),
    ground arith,
    ground (arith, append-nil last.transfer_blocks),
  )
  sync_loop-sends_once (rollup ∷ rest) last self added {now} {self'}
        (more, later, blocks, fresh, grows, all) h =
      let (next, mid, ticked, looped) = sync_loop_inv rollup rest last self h in
      let (read, acted) = sync_tick_inv rollup last self ticked in
      let grown : next.transfer_blocks ≡ last.transfer_blocks ++ more =
        ground (arith, get_sync_state_blocks rollup read) in
      let (c, sent, c_mid) = act_on_sync-sends rollup last next self more grown fresh acted in
      let (d, sent', d_self', ends) =
        sync_loop-sends_once rest next mid later (subst (λ x. Grows x rest later) (sym grown) grows)
          looped in
      let (d', sent'', d_d') = send_new_blocks-IsSame later (IsSame-sym c_mid) sent' in
      (
        d',
        rw all (send_new_blocks-append more later self sent sent''),
        IsSame-trans (IsSame-sym d_d') d_self',
        ends
            ∙ ap (λ x. x ++ later) grown
            ∙ append_assoc last.transfer_blocks more later
            ∙ ap (λ x. last.transfer_blocks ++ x) (sym all),
      )
