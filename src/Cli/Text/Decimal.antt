-- ===== src/Cli/Text/Decimal.antt =====
-- Decimal numbers on the command line: `parse::<u64>`.
use stateless_payments.Common.{
  ℕ, zero, suc, ◌+◌, ◌-◌, ◌*◌, ◌/◌, ◌%◌, ◌<◌, ◌≤◌, Bytes, true, false, ◌≡◌, ◌≢◌, refl, ap, ◌∙◌, inl,
  inr, ltb, if◌then◌else◌, Bool-cases, some, [], ◌∷◌, ◌++◌, All, All-mono, All-append, length,
  length-append, arith,
}
use stateless_payments.Common.Words.{u64_mod}
use stateless_payments.Cli.Text.{is_whitespace, is_digit, parse_digits, parse_u64}
use stateless_payments.Cli.Text.Words.{IsWord}

-- The decimal digits of a number below the fuel.
abbrev digits_of : ℕ → ℕ → Bytes
digits_of zero n = []
digits_of (suc fuel) n =
    let front = digits_of fuel (n / 10) in
    if ltb n 10 then (n + b'0') ∷ [] else front ++ (n % 10 + b'0') ∷ []

-- A number in decimal.
unfoldable pub decimal : ℕ → Bytes
decimal n = digits_of (suc n) n

parse_digits-append :
    (value : ℕ) (front back : Bytes) {n : ℕ}
    → parse_digits value front ≡ some n
    → parse_digits value (front ++ back) ≡ parse_digits n back
unfolding parse_digits
parse_digits-append value [] back {n} h = ground arith
parse_digits-append value (c ∷ front) back {n} h =
    ground (arith, parse_digits-append (value * 10 + (c - b'0')) front back {n = n})

parse_digits_of : (fuel n : ℕ) → n < fuel → n < u64_mod → parse_digits 0 (digits_of fuel n) ≡ some n
unfolding parse_digits
parse_digits_of zero n h small = elim h [ ]
parse_digits_of (suc fuel) n h small = elim (Bool-cases (ltb n 10)) [
  | inl one ↦ rw one (ground arith)
  | inr more ↦ rw more (
      parse_digits-append 0 (digits_of fuel (n / 10)) _
        (parse_digits_of fuel (n / 10) (ground arith) (ground arith))
      ∙ ground arith)
]

digits_of-digits : (fuel n : ℕ) → All (λ c. is_digit c ≡ true) (digits_of fuel n)
digits_of-digits zero n = tt
digits_of-digits (suc fuel) n = elim (Bool-cases (ltb n 10)) [
  | inl one ↦ rw one (ground arith, tt)
  | inr more ↦ rw more (
      All-append (λ c. is_digit c ≡ true) (digits_of fuel (n / 10)) _
        (digits_of-digits fuel (n / 10)) (ground arith, tt))
]

digits_of-ne-nil : (fuel n : ℕ) → digits_of (suc fuel) n ≢ []
digits_of-ne-nil fuel n h =
    let long : 1 ≤ length (digits_of (suc fuel) n) =
      ground (arith, length-append (digits_of fuel (n / 10)) ((n % 10 + b'0') ∷ [])) in
    omega (arith, ap length h)

digit-word : (c : ℕ) → is_digit c ≡ true → is_whitespace c ≡ false
unfolding is_whitespace
digit-word c h = ground arith

parse_u64-digits :
    (text : Bytes)
    → text ≢ []
    → All (λ c. is_digit c ≡ true) text
    → parse_u64 text ≡ parse_digits 0 text
unfolding parse_u64
parse_u64-digits [] h a = absurd (h refl)
parse_u64-digits (c ∷ []) h a = refl
parse_u64-digits (c ∷ d ∷ text) h a = ground arith

-- A `u64` in decimal reads back.
pub parse_u64-decimal : (n : ℕ) → n < u64_mod → parse_u64 (decimal n) ≡ some n
unfolding decimal
parse_u64-decimal n small =
    parse_u64-digits (digits_of (suc n) n) (digits_of-ne-nil n n) (digits_of-digits (suc n) n)
    ∙ parse_digits_of (suc n) n (omega arith) small

pub decimal-IsWord : (n : ℕ) → IsWord (decimal n)
unfolding decimal
decimal-IsWord n =
    (digits_of-ne-nil n n, All-mono (digits_of (suc n) n) digit-word (digits_of-digits (suc n) n))

parse_digits-lt :
    (value : ℕ) (text : Bytes) {n : ℕ}
    → value < u64_mod
    → parse_digits value text ≡ some n
    → n < u64_mod
unfolding parse_digits
parse_digits-lt value [] small h = ground arith
parse_digits-lt value (c ∷ text) {n} small h =
    ground (arith, parse_digits-lt (value * 10 + (c - b'0')) text {n = n})

-- What is read is a `u64`.
pub parse_u64-lt : (text : Bytes) {n : ℕ} → parse_u64 text ≡ some n → n < u64_mod
unfolding parse_u64
parse_u64-lt [] h = absurd (cc)
parse_u64-lt (c ∷ []) h = parse_digits-lt 0 (c ∷ []) (omega arith) h
parse_u64-lt (c ∷ d ∷ text) {n} h =
    ground (arith, parse_digits-lt 0 (d ∷ text) {n = n}, parse_digits-lt 0 (c ∷ d ∷ text) {n = n})
