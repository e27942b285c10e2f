-- ===== src/Cli/Text/Words.antt =====
-- The words of a text: `split_whitespace` and `trim`.
use stateless_payments.Common.{
  ℕ, Bytes, true, false, ◌≡◌, ◌≢◌, refl, ap, ◌∙◌, List, [], ◌∷◌, ◌++◌, All, arith,
}
use stateless_payments.Cli.Text.{
  is_whitespace, push_word, cut, split_whitespace, trim_start, trim_end, trim,
}

abbrev pub IsBlank : Bytes → Type 0
IsBlank = All (λ c. is_whitespace c ≡ true)

-- Not empty, and without a blank.
abbrev pub IsWord : Bytes → Type 0
IsWord word = (word ≢ []) × All (λ c. is_whitespace c ≡ false) word

trim_start-words : (text : Bytes) → split_whitespace (trim_start text) ≡ split_whitespace text
unfolding split_whitespace trim_start
trim_start-words [] = refl
trim_start-words (c ∷ text) = ground (arith, trim_start-words text)

-- What is cut off at the end is blank.
blank-cut : (text : Bytes) → trim_end text ≡ [] → (cut text).0 ≡ [] × ((cut text).1 ≡ [])
unfolding trim_end cut
blank-cut [] h = (refl, refl)
blank-cut (c ∷ text) h = ground (arith, blank-cut text)

trim_end-cut : (text : Bytes) → cut (trim_end text) ≡ cut text
unfolding trim_end cut
trim_end-cut [] = refl
trim_end-cut (c ∷ text) = ground (arith, trim_end-cut text, blank-cut text)

pub trim-words : (text : Bytes) → split_whitespace (trim text) ≡ split_whitespace text
unfolding trim split_whitespace
trim-words text = ground (arith, trim_end-cut (trim_start text), trim_start-words text)

-- A text of these words, with blanks between them and perhaps around them.
pub data Spaced : List Bytes → Bytes → Type 0 where
  ends : Spaced [] []
  last_word : (word : Bytes) → IsWord word → Spaced (word ∷ []) word
  blank :
      (c : ℕ) {words : List Bytes} {text : Bytes}
      → is_whitespace c ≡ true
      → Spaced words text
      → Spaced words (c ∷ text)
  next_word :
      (word : Bytes) (c : ℕ) {words : List Bytes} {text : Bytes}
      → IsWord word
      → is_whitespace c ≡ true
      → Spaced words text
      → Spaced (word ∷ words) (word ++ c ∷ text)

cut-word : (word : Bytes) → All (λ c. is_whitespace c ≡ false) word → cut word ≡ (word, [])
unfolding cut
cut-word [] h = refl
cut-word (c ∷ word) h = ground (arith, cut-word word h.1)

cut-append :
    (word : Bytes) (c : ℕ) (text : Bytes)
    → All (λ c. is_whitespace c ≡ false) word
    → is_whitespace c ≡ true
    → cut (word ++ c ∷ text) ≡ (word, split_whitespace text)
unfolding cut split_whitespace
cut-append [] c text h b = ground arith
cut-append (d ∷ word) c text h b = ground (arith, cut-append word c text h.1 b)

push_word-ne : (word : Bytes) (words : List Bytes) → word ≢ [] → push_word word words ≡ word ∷ words
push_word-ne [] words h = absurd (h refl)
push_word-ne (c ∷ word) words h = refl

-- `split_whitespace` reads the words back.
pub Spaced-words :
    {words : List Bytes} {text : Bytes} → Spaced words text → split_whitespace text ≡ words
unfolding split_whitespace
Spaced-words ends = refl
Spaced-words (last_word word h) = rw (cut-word word h.1) (push_word-ne word [] h.0)
Spaced-words (blank c h rest) = ground (arith, Spaced-words rest)
Spaced-words (next_word word c {words} {text} h b rest) =
    rw (cut-append word c text h.1 b)
      (push_word-ne word _ h.0 ∙ ap (λ ws. word ∷ ws) (Spaced-words rest))
