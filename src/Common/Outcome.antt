-- ===== src/Common/Outcome.antt =====
-- What a call ends in: a value, an `Err`, or a panic; and a method on a shared state, whose changes
-- stay when it ends in an `Err`.
use mathlib.Core.Path.{◌≡◌, refl, sym, subst}
use mathlib.Core.Bool.{Bool, true, false}
use native.Mathlib.Omega.{arith}
use stateless_payments.Common.Tests.{if◌then◌else◌}
use mathlib.Core.Option.{Option, none, some}

pub data Result (E A : Type 0) : Type 0 where
  ok : A → Result E A
  err : E → Result E A
  panic : Result E A

module _ {E : Type 0} where
  infixl 5 ◌>>=◌ ◌>>◌
  abbrev pub ◌>>=◌ : {A B : Type 0} → Result E A → (A → Result E B) → Result E B
  ok x >>= k = k x
  err failure >>= k = err failure
  panic >>= k = panic

  abbrev pub ◌>>◌ : {B : Type 0} → Result E (Unit {0}) → Result E B → Result E B
  first >> second = first >>= λ _. second

  -- An early `return Err(e)` under a condition.
  abbrev pub fail_if : Bool → E → Result E (Unit {0})
  fail_if true e = err e
  fail_if false e = ok tt

  -- `ok_or(e)`
  abbrev pub ok_or : {A : Type 0} → Option A → E → Result E A
  ok_or none e = err e
  ok_or (some a) e = ok a

  -- `unwrap()`
  abbrev pub unwrap_result : {A : Type 0} → Result E A → Result E A
  unwrap_result (ok a) = ok a
  unwrap_result (err e) = panic
  unwrap_result panic = panic

  abbrev pub map_ok : {A B : Type 0} → (A → B) → Result E A → Result E B
  map_ok f (ok a) = ok (f a)
  map_ok f (err e) = err e
  map_ok f panic = panic

  -- A value at the end is one of the first step that the second goes on with.
  pub >>=-eq-ok :
      {A B : Type 0} (first : Result E A) (k : A → Result E B) {y : B}
      → (first >>= k) ≡ ok y
      → (x : A) × (first ≡ ok x) × (k x ≡ ok y)
  >>=-eq-ok (ok x) k done = (x, refl, done)
  >>=-eq-ok (err e) k done = cc
  >>=-eq-ok panic k done = cc

  fail_if-eq-ok : (c : Bool) (e : E) → fail_if c e ≡ ok tt → c ≡ false
  fail_if-eq-ok true e h = cc
  fail_if-eq-ok false e h = refl

  pub ok_or-eq-ok : {A : Type 0} (o : Option A) (e : E) {a : A} → ok_or o e ≡ ok a → o ≡ some a
  ok_or-eq-ok none e h = cc
  ok_or-eq-ok (some a) e h = cc

-- A method with `&mut self`.
abbrev pub Method : Type 0 → Type 0 → Type 0 → Type 0
Method E S A = S → Result E A × S

-- Go on with the value of `r`, or end with its error and the state `s`.
abbrev pub on_ok : {E S A B : Type 0} → Result E A → S → (A → Result E B × S) → Result E B × S
on_ok (ok a) s k = k a
on_ok (err e) s k = (err e, s)
on_ok panic s k = (panic, s)

-- The state as it was, unless the call ended well.
abbrev pub IsAtomic : {E S A : Type 0} → S → Result E A × S → Type 0
IsAtomic s (ok a, t) = Unit
IsAtomic s (err e, t) = t ≡ s
IsAtomic s (panic, t) = t ≡ s

pub on_ok-IsAtomic :
    {E S A B : Type 0} (r : Result E A) (s : S) (b : A → B) (t : A → S)
    → IsAtomic s (on_ok r s (λ a. (ok (b a), t a)))
on_ok-IsAtomic (ok a) s b t = tt
on_ok-IsAtomic (err e) s b t = refl
on_ok-IsAtomic panic s b t = refl

-- To prove something of what `on_ok` ends in.
pub on_ok_elim {κ} :
    {E S A B : Type 0} (P : Result E B × S → Type κ) (r : Result E A) (s : S)
    (k : A → Result E B × S)
    → ((e : E) → P (err e, s))
    → P (panic, s)
    → ((a : A) → r ≡ ok a → P (k a))
    → P (on_ok r s k)
on_ok_elim P (ok a) s k failed stopped done = done a refl
on_ok_elim P (err e) s k failed stopped done = failed e
on_ok_elim P panic s k failed stopped done = stopped

pub on_ok-eq-ok :
    {E S A B : Type 0} (r : Result E A) (s : S) (f : A → B) (t : A → S) {x : B} {s' : S}
    → on_ok r s (λ a. (ok (f a), t a)) ≡ (ok x, s')
    → (a : A) × (r ≡ ok a) × (x ≡ f a) × (s' ≡ t a)
on_ok-eq-ok (ok a) s f t h = (a, refl, ground arith, ground arith)
on_ok-eq-ok (err e) s f t h = ground arith
on_ok-eq-ok panic s f t h = ground arith

pub on_ok_inv :
    {E S A B : Type 0} (r : Result E A) (s : S) (k : A → Result E B × S) {x : B} {s' : S}
    → on_ok r s k ≡ (ok x, s')
    → (a : A) × (r ≡ ok a) × (k a ≡ (ok x, s'))
on_ok_inv (ok a) s k h = (a, refl, h)
on_ok_inv (err e) s k h = ground arith
on_ok_inv panic s k h = ground arith

-- To prove something of what a `match` on an option ends in.
pub option_elim {κ} :
    {A B : Type 0} (P : B → Type κ) (o : Option A) (z : B) (k : A → B)
    → P z
    → ((a : A) → o ≡ some a → P (k a))
    → P (elim o [ none ↦ z | some a ↦ k a ])
option_elim P none z k nothing found = nothing
option_elim P (some a) z k nothing found = found a refl

-- To prove something of what an `if` ends in.
pub if_elim {κ} :
    {B : Type 0} (P : B → Type κ) (c : Bool) (y n : B) → P y → P n → P (if c then y else n)
if_elim P true y n when_true when_false = when_true
if_elim P false y n when_true when_false = when_false

-- As `on_ok_elim`, of a step that is atomic: what fails leaves the state `s`.
pub on_ok_atomic {κ} :
    {E S T A B : Type 0} (P : Result E B × T → Type κ) (x : Result E A × S) (s : S) (c : S → T)
    (k : A → Result E B × T)
    → IsAtomic s x
    → ((r : Result E B) → P (r, c s))
    → ((a : A) → x.0 ≡ ok a → P (k a))
    → P (on_ok x.0 (c x.1) k)
on_ok_atomic P (ok a, t) s c k same failed done = done a refl
on_ok_atomic P (err e, t) s c k same failed done =
    subst (λ u. P (err e, c u)) (sym same) (failed (err e))
on_ok_atomic P (panic, t) s c k same failed done =
    subst (λ u. P (panic, c u)) (sym same) (failed panic)
