-- ===== src/Tests/Codec.antt =====
-- Texts for data, each of which reads back whatever follows it.
use stateless_payments.Common.{
  ℕ, zero, suc, Bytes, ◌≡◌, refl, Option, none, some, List, [], ◌∷◌, length, arith,
}

pub record Codec (A : Type 0) : Type 0 where
  pub enc : A → Bytes → Bytes
  pub dec : Bytes → Option (A × Bytes)
  pub dec-enc : (a : A) (r : Bytes) → dec (enc a r) ≡ some (a, r)

abbrev pub nat_dec : Bytes → Option (ℕ × Bytes)
nat_dec [] = none
nat_dec (n ∷ r) = some (n, r)

abbrev pub nat_codec : Codec ℕ
nat_codec = record { enc = λ n r. n ∷ r; dec = nat_dec; dec-enc = λ n r. refl }

module _ {A B : Type 0} (c : Codec A) (d : Codec B) where
  abbrev pub pair_dec : Bytes → Option ((A × B) × Bytes)
  pair_dec r = elim (c.dec r) [
    | none ↦ none
    | some (a, r') ↦ elim (d.dec r') [ none ↦ none | some (b, r'') ↦ some ((a, b), r'') ]
  ]

  pub pair_dec-enc : (x : A × B) (r : Bytes) → pair_dec (c.enc x.0 (d.enc x.1 r)) ≡ some (x, r)
  pair_dec-enc (a, b) r = ground (arith, c.dec-enc a (d.enc b r), d.dec-enc b r)

  abbrev pub pair_codec : Codec (A × B)
  pair_codec = record {
    enc = λ x r. c.enc x.0 (d.enc x.1 r);
    dec = pair_dec;
    dec-enc = pair_dec-enc;
  }

module _ {A : Type 0} (c : Codec A) where
  abbrev pub all_enc : List A → Bytes → Bytes
  all_enc [] r = r
  all_enc (a ∷ xs) r = c.enc a (all_enc xs r)

  abbrev pub all_dec : ℕ → Bytes → Option (List A × Bytes)
  all_dec zero r = some ([], r)
  all_dec (suc n) r = elim (c.dec r) [
    | none ↦ none
    | some (a, r') ↦ elim (all_dec n r') [ none ↦ none | some (xs, r'') ↦ some (a ∷ xs, r'') ]
  ]

  pub all_dec-enc : (xs : List A) (r : Bytes) → all_dec (length xs) (all_enc xs r) ≡ some (xs, r)
  all_dec-enc [] r = refl
  all_dec-enc (a ∷ xs) r = rw (c.dec-enc a (all_enc xs r), all_dec-enc xs r) refl

  abbrev pub list_dec : Bytes → Option (List A × Bytes)
  list_dec [] = none
  list_dec (n ∷ r) = all_dec n r

  abbrev pub list_codec : Codec (List A)
  list_codec = record {
    enc = λ xs r. length xs ∷ all_enc xs r;
    dec = list_dec;
    dec-enc = all_dec-enc;
  }

module _ {A B : Type 0} (c : Codec A) (to : B → A) (from : A → B)
    (back : (b : B) → from (to b) ≡ b) where
  abbrev pub via_dec : Bytes → Option (B × Bytes)
  via_dec r = elim (c.dec r) [ none ↦ none | some (a, r') ↦ some (from a, r') ]

  pub via_dec-enc : (b : B) (r : Bytes) → via_dec (c.enc (to b) r) ≡ some (b, r)
  via_dec-enc b r = ground (arith, c.dec-enc (to b) r, back b)

  abbrev pub via_codec : Codec B
  via_codec = record { enc = λ b r. c.enc (to b) r; dec = via_dec; dec-enc = via_dec-enc }
