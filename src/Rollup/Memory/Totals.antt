-- ===== src/Rollup/Memory/Totals.antt =====
-- The totals under `+=` of a `u64` (src/rollup/mock_rollup_memory.rs).
use stateless_payments.Common.{
  ℕ, ◌+◌, ◌≤◌, ◌<◌, ◌≡◌, ◌==◌, if◌then◌else◌, Option-cases, inl, inr, arith, ltb,
}
use stateless_payments.Common.Assoc.{lookup, insert, lookup-insert}
use stateless_payments.Common.Outcome.{ok, fail_if, >>=-eq-ok}
use stateless_payments.Common.Words.{Profile, debug, u64_mod, add_u64}
use stateless_payments.External.Bls.{Bls}
use stateless_payments.Types.PublicKey.{BlsPublicKeyWrapper, AccountTotals, wrap, wrapper_Eq}
use stateless_payments.Types.Errors.{Error, anyhow, insufficient_funds}
use stateless_payments.Rollup.Traits.{total_of}
use stateless_payments.Rollup.Memory.{MockRollupMemory, add_to_total, withdrawn}

module _ ⦃b : Bls⦄ where
  pub total-insert :
      (k q : BlsPublicKeyWrapper) (n : ℕ) (totals : AccountTotals)
      → total_of q (insert k n totals) ≡ (if q == k then n else total_of q totals)
  total-insert k q n totals = ground (arith, lookup-insert k q n totals)

  -- In a debug build a total that was raised is exactly the sum; other totals stay.
  pub total-add_to_total :
      (k q : BlsPublicKeyWrapper) (amount : ℕ) (totals : AccountTotals) {raised : AccountTotals}
      → add_to_total debug k amount totals ≡ ok raised
      → total_of q raised ≡ (if q == k then total_of k totals + amount else total_of q totals)
  unfolding add_to_total
  total-add_to_total k q amount totals h = elim (Option-cases (lookup k totals)) [
    | inl e ↦ ground (arith, lookup-insert k q amount totals)
    | inr (n, e) ↦ ground (arith, lookup-insert k q (n + amount) totals)
  ]

  -- In every build a sum that fits is what the total becomes.
  pub add_to_total_fits :
      (profile : Profile) (k : BlsPublicKeyWrapper) (amount : ℕ) (totals : AccountTotals)
      → total_of k totals + amount < u64_mod
      → add_to_total profile k amount totals ≡ ok (insert k (total_of k totals + amount) totals)
  unfolding add_to_total
  add_to_total_fits profile k amount totals h = elim (Option-cases (lookup k totals)) [
    | inl e ↦ ground arith
    | inr (n, e) ↦ ground arith
  ]

  -- The sum of a `u64` and a total is what the total becomes, wrapped or not.
  add_to_total-sum :
      (profile : Profile) (k : BlsPublicKeyWrapper) (amount n : ℕ) (totals : AccountTotals)
      → amount < u64_mod
      → add_u64 {E = Error} profile (total_of k totals) amount ≡ ok n
      → add_to_total profile k amount totals ≡ ok (insert k n totals)
  unfolding add_to_total
  add_to_total-sum profile k amount n totals small h = elim (Option-cases (lookup k totals)) [
    | inl e ↦ ground arith
    | inr (m, e) ↦ ground arith
  ]

  -- The sum that `add_withdraw` compares with the deposits is the one that it stores.
  pub withdrawn_inv :
      (profile : Profile) (pk : b.PublicKey) (amount : ℕ) (s : MockRollupMemory)
      {raised : AccountTotals}
      → amount < u64_mod
      → withdrawn profile pk amount s ≡ ok raised
      → (n : ℕ) × (add_u64 {E = Error} profile (total_of (wrap pk) s.withdraw_totals) amount ≡ ok n)
        × (n ≤ total_of (wrap pk) s.deposit_totals)
        × (raised ≡ insert (wrap pk) n s.withdraw_totals)
  unfolding withdrawn
  withdrawn_inv profile pk amount s small h =
      let withdraw_amount = total_of (wrap pk) s.withdraw_totals in
      let (n, sum, rest) = >>=-eq-ok (add_u64 {E = Error} profile withdraw_amount amount) _ h in
      let (_, covered, stored) =
        >>=-eq-ok
          (fail_if (ltb (total_of (wrap pk) s.deposit_totals) n) (anyhow insufficient_funds)) _
          rest in
      (
        n,
        sum,
        ground arith,
        ground (arith, add_to_total-sum profile (wrap pk) amount n s.withdraw_totals small sum),
      )
