-- ===== src/Rollup/Memory/Solvency.antt =====
-- No account withdraws more than it deposited (src/rollup/mock_rollup_memory.rs).
use stateless_payments.Common.{ℕ, ◌+◌, ◌≤◌, ◌<◌, ◌≡◌, if◌then◌else◌, arith, leb}
use stateless_payments.Common.Outcome.{ok, err, on_ok_elim}
use stateless_payments.Common.Assoc.{insert}
use stateless_payments.Common.Words.{Profile, debug, u64_mod}
use stateless_payments.External.Bls.{Bls}
use stateless_payments.Types.PublicKey.{BlsPublicKeyWrapper, wrap, eq_iff, wrapper_Eq}
use stateless_payments.Types.Errors.{anyhow, insufficient_funds}
use stateless_payments.Types.TransferBlock.{TransferBlock}
use stateless_payments.Rollup.Traits.{total_of}
use stateless_payments.Rollup.Memory.{
  MockRollupMemory, new, add_transfer_block, add_to_total, add_deposit, withdrawn, add_withdraw,
}
use stateless_payments.Rollup.Memory.Totals.{
  total-insert, total-add_to_total, add_to_total_fits, withdrawn_inv,
}

module _ ⦃b : Bls⦄ where
  abbrev pub IsSolvent : MockRollupMemory → Type 0
  IsSolvent s =
      (q : BlsPublicKeyWrapper) → total_of q s.withdraw_totals ≤ total_of q s.deposit_totals

  -- In every build a withdrawal of a `u64`, let through or not, leaves every account with no more
  -- withdrawn than deposited, if that was so before.
  add_withdraw-IsSolvent :
      (profile : Profile) (pk : b.PublicKey) (amount : ℕ) (s : MockRollupMemory)
      → amount < u64_mod
      → IsSolvent s
      → IsSolvent (add_withdraw profile pk amount s).1
  unfolding add_withdraw
  add_withdraw-IsSolvent profile pk amount s small v =
      on_ok_elim (λ x. IsSolvent x.1) (withdrawn profile pk amount s) s _ (λ e. v) v
        λ raised h q.
          let (n, sum, covered, stored) = withdrawn_inv profile pk amount s small h in
          ground (arith, eq_iff q (wrap pk), total-insert (wrap pk) q n s.withdraw_totals, v q)

  -- In a debug build a deposit keeps that, and raises the depositor's total alone, by its amount.
  add_deposit-IsSolvent :
      (pk : b.PublicKey) (amount : ℕ) (s : MockRollupMemory)
      → IsSolvent s
      → IsSolvent (add_deposit debug pk amount s).1
  unfolding add_deposit
  add_deposit-IsSolvent pk amount s v =
      on_ok_elim (λ x. IsSolvent x.1) (add_to_total debug (wrap pk) amount s.deposit_totals) s _
        (λ e. v) v
        λ raised h q.
          ground (
            arith,
            eq_iff q (wrap pk),
            total-add_to_total (wrap pk) q amount s.deposit_totals h,
            v q,
          )

  -- The calls of a debug build on the contract.
  pub data Step (s : MockRollupMemory) : MockRollupMemory → Type 0 where
    deposits : (pk : b.PublicKey) (amount : ℕ) → Step s (add_deposit debug pk amount s).1
    withdraws :
        (pk : b.PublicKey) (amount : ℕ)
        → amount < u64_mod
        → Step s (add_withdraw debug pk amount s).1
    appends : (block : TransferBlock) → Step s (add_transfer_block block s).1

  pub data Reach (s : MockRollupMemory) : MockRollupMemory → Type 0 where
    here : Reach s s
    next : {u w : MockRollupMemory} → Reach s u → Step u w → Reach s w

  Step-IsSolvent : {s u : MockRollupMemory} → Step s u → IsSolvent s → IsSolvent u
  Step-IsSolvent {s} (deposits pk amount) v = add_deposit-IsSolvent pk amount s v
  Step-IsSolvent {s} (withdraws pk amount small) v =
      add_withdraw-IsSolvent debug pk amount s small v
  Step-IsSolvent (appends block) v = v

  Reach-IsSolvent : {s u : MockRollupMemory} → Reach s u → IsSolvent s → IsSolvent u
  Reach-IsSolvent here v = v
  Reach-IsSolvent (next r st) v = Step-IsSolvent st (Reach-IsSolvent r v)

  -- In a debug build no sequence of calls on a new contract, with amounts that are `u64`s, lets an
  -- account withdraw more than it deposited.
  pub reachable-IsSolvent : {s : MockRollupMemory} → Reach new s → IsSolvent s
  reachable-IsSolvent r = Reach-IsSolvent r (λ q. omega arith)

  -- A withdrawal whose sum is a `u64` goes through exactly if the deposits cover it, and raises the
  -- withdrawer's total alone; otherwise nothing changes.
  add_withdraw_lem :
      (profile : Profile) (pk : b.PublicKey) (amount : ℕ) (s : MockRollupMemory)
      → total_of (wrap pk) s.withdraw_totals + amount < u64_mod
      → add_withdraw profile pk amount s ≡ (
          if leb
            (total_of (wrap pk) s.withdraw_totals + amount)
            (total_of (wrap pk) s.deposit_totals)
          then (
            ok tt,
            record s {
              withdraw_totals =
                  insert
                    (wrap pk)
                    (total_of (wrap pk) s.withdraw_totals + amount)
                    s.withdraw_totals;
            },
          )
          else (err (anyhow insufficient_funds), s))
  unfolding add_withdraw withdrawn
  add_withdraw_lem profile pk amount s fits =
      ground (arith, add_to_total_fits profile (wrap pk) amount s.withdraw_totals fits)
