-- ===== src/External/IndexMap.antt =====
-- The crate `indexmap`: a map whose entries keep the order in which their keys came.
use stateless_payments.Common.{◌≡◌, Eq, List, [], Option}
use stateless_payments.Common.Assoc

pub record IndexMap (K V : Type 0) ⦃e : Eq K⦄ : Type 1 where
  pub Map : Type 0
  pub new : Map
  pub insert : K → V → Map → Map
  pub get : K → Map → Option V
  -- `get_mut(k)`, and a write through the reference.
  pub modify : K → (V → V) → Map → Map
  -- The iteration.
  pub entries : Map → List (K × V)
  pub entries-new : entries new ≡ []
  pub entries-insert :
      (k : K) (v : V) (m : Map) → entries (insert k v m) ≡ Assoc.insert k v (entries m)
  pub get_lem : (k : K) (m : Map) → get k m ≡ Assoc.lookup k (entries m)
  pub entries-modify :
      (k : K) (f : V → V) (m : Map) → entries (modify k f m) ≡ Assoc.modify k f (entries m)
