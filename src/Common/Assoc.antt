-- ===== src/Common/Assoc.antt =====
-- `std::collections::HashMap` as an association list. The order of the list stands for the order in
-- which the map is iterated, which the program does not choose.
use stateless_payments.Common.Tests.{if◌then◌else◌, Eq, ◌==◌, ==_refl}
use mathlib.Core.Path.{◌≡◌, refl}
use mathlib.Core.Bool.{Bool, true, false}
use mathlib.Core.Option.{Option, none, some}
use mathlib.Core.List.{List, [], ◌∷◌, ◌++◌}
use native.Mathlib.Omega.{arith}

abbrev pub HashMap : Type 0 → Type 0 → Type 0
HashMap K V = List (K × V)

module _ {K V : Type 0} ⦃e : Eq K⦄ where
  -- `get`
  abbrev pub lookup : K → HashMap K V → Option V
  lookup k [] = none
  lookup k ((j, v) ∷ m) = if k == j then some v else lookup k m

  abbrev pub contains_key : K → HashMap K V → Bool
  contains_key k m = elim (lookup k m) [ none ↦ false | some v ↦ true ]

  -- `insert`: the value of a present key is replaced.
  abbrev pub insert : K → V → HashMap K V → HashMap K V
  insert k v [] = (k, v) ∷ []
  insert k v ((j, w) ∷ m) = if k == j then (j, v) ∷ m else (j, w) ∷ insert k v m

  -- `entry(k).and_modify(f).or_insert(v)`
  abbrev pub upsert : K → (V → V) → V → HashMap K V → HashMap K V
  upsert k f v [] = (k, v) ∷ []
  upsert k f v ((j, w) ∷ m) = if k == j then (j, f w) ∷ m else (j, w) ∷ upsert k f v m

  -- `get_mut(k)`, and a write through the reference.
  abbrev pub modify : K → (V → V) → HashMap K V → HashMap K V
  modify k f [] = []
  modify k f ((j, w) ∷ m) = if k == j then (j, f w) ∷ m else (j, w) ∷ modify k f m

  abbrev pub remove : K → HashMap K V → HashMap K V
  remove k [] = []
  remove k ((j, w) ∷ m) = if k == j then m else (j, w) ∷ remove k m

  pub lookup-insert :
      (k j : K) (v : V) (m : HashMap K V)
      → lookup j (insert k v m) ≡ (if j == k then some v else lookup j m)
  lookup-insert k j v [] = refl
  lookup-insert k j v ((i, w) ∷ m) =
      ground (arith, e.beq_iff j k, e.beq_iff k i, e.beq_iff j i, lookup-insert k j v m)

  pub lookup-insert_self : (k : K) (v : V) (m : HashMap K V) → lookup k (insert k v m) ≡ some v
  lookup-insert_self k v m = rw (lookup-insert k k v m, ==_refl k)

  pub lookup-modify :
      (k j : K) (f : V → V) (m : HashMap K V)
      → lookup j (modify k f m)
        ≡ (if j == k then elim (lookup j m) [ none ↦ none | some v ↦ some (f v) ] else lookup j m)
  lookup-modify k j f [] = ground arith
  lookup-modify k j f ((i, w) ∷ m) =
      ground (arith, e.beq_iff j k, e.beq_iff k i, e.beq_iff j i, lookup-modify k j f m)

  -- No key is listed twice: what a map's value always satisfies.
  abbrev pub IsMap : HashMap K V → Type 0
  IsMap [] = Unit
  IsMap ((k, v) ∷ m) = (lookup k m ≡ none) × IsMap m

  pub insert-IsMap : (k : K) (v : V) (m : HashMap K V) → IsMap m → IsMap (insert k v m)
  insert-IsMap k v [] h = (refl, tt)
  insert-IsMap k v ((j, w) ∷ m) h =
      ground (arith, e.beq_iff k j, e.beq_iff j k, lookup-insert k j v m, insert-IsMap k v m h.1)

  pub insert_new :
      (k : K) (v : V) (m : HashMap K V) → lookup k m ≡ none → insert k v m ≡ m ++ (k, v) ∷ []
  insert_new k v [] h = refl
  insert_new k v ((j, w) ∷ m) h = ground (arith, insert_new k v m)

  pub modify-IsMap : (k : K) (f : V → V) (m : HashMap K V) → IsMap m → IsMap (modify k f m)
  modify-IsMap k f [] h = tt
  modify-IsMap k f ((j, w) ∷ m) h =
      ground (arith, e.beq_iff j k, lookup-modify k j f m, modify-IsMap k f m h.1)

  pub lookup-upsert :
      (k j : K) (f : V → V) (v : V) (m : HashMap K V)
      → lookup j (upsert k f v m)
        ≡ (if j == k then some (elim (lookup k m) [ none ↦ v | some w ↦ f w ]) else lookup j m)
  lookup-upsert k j f v [] = refl
  lookup-upsert k j f v ((i, w) ∷ m) =
      ground (arith, e.beq_iff j k, e.beq_iff k i, e.beq_iff j i, lookup-upsert k j f v m)

  pub upsert-IsMap :
      (k : K) (f : V → V) (v : V) (m : HashMap K V) → IsMap m → IsMap (upsert k f v m)
  upsert-IsMap k f v [] h = (refl, tt)
  upsert-IsMap k f v ((j, w) ∷ m) h =
      ground
        (arith, e.beq_iff k j, e.beq_iff j k, lookup-upsert k j f v m, upsert-IsMap k f v m h.1)

  pub lookup-remove :
      (k j : K) (m : HashMap K V)
      → IsMap m
      → lookup j (remove k m) ≡ (if j == k then none else lookup j m)
  lookup-remove k j [] h = ground arith
  lookup-remove k j ((i, w) ∷ m) h =
      ground (arith, e.beq_iff j k, e.beq_iff k i, e.beq_iff j i, lookup-remove k j m h.1)

  pub remove-IsMap : (k : K) (m : HashMap K V) → IsMap m → IsMap (remove k m)
  remove-IsMap k [] h = tt
  remove-IsMap k ((j, w) ∷ m) h = ground (arith, lookup-remove k j m h.1, remove-IsMap k m h.1)
