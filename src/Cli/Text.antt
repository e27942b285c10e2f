-- ===== src/Cli/Text.antt =====
-- What src/bin/cli uses of the standard library's texts: `split_whitespace`, `trim` and
-- `parse::<u64>`. A text is the list of its code points.
pub mod Words
pub mod Decimal
use Prim.Native.Char.{code}
use Prim.Native.String.{String}
use stateless_payments.Common.{
  ℕ, ◌+◌, ◌-◌, ◌*◌, Bytes, Bool, ◌&&◌, ◌||◌, true, false, nat_eq, leb, ltb, if◌then◌else◌, is_empty,
  Option, none, some, List, [], ◌∷◌,
}
use stateless_payments.Common.Words.{u64_mod}

abbrev pub codes : String → Bytes
codes String.[] = []
codes (String.◌∷◌ c s) = code c ∷ codes s

-- `char::is_whitespace`: the property White_Space of Unicode.
unfoldable pub is_whitespace : ℕ → Bool
is_whitespace c =
    (leb 0x9 c && leb c 0xD)
    || nat_eq c 0x20
    || nat_eq c 0x85
    || nat_eq c 0xA0
    || nat_eq c 0x1680
    || (leb 0x2000 c && leb c 0x200A)
    || nat_eq c 0x2028
    || nat_eq c 0x2029
    || nat_eq c 0x202F
    || nat_eq c 0x205F
    || nat_eq c 0x3000

-- An empty piece between two blanks is no word.
abbrev pub push_word : Bytes → List Bytes → List Bytes
push_word [] words = words
push_word (c ∷ word) words = (c ∷ word) ∷ words

-- The text up to the first blank, and the words behind it.
unfoldable pub cut : Bytes → Bytes × List Bytes
cut [] = ([], [])
cut (c ∷ text) =
    let (word, words) = cut text in
    if is_whitespace c then ([], push_word word words) else (c ∷ word, words)

unfoldable pub split_whitespace : Bytes → List Bytes
unfolding cut
split_whitespace text = let (word, words) = cut text in push_word word words

unfoldable pub trim_start : Bytes → Bytes
trim_start [] = []
trim_start (c ∷ text) = if is_whitespace c then trim_start text else c ∷ text

unfoldable pub trim_end : Bytes → Bytes
trim_end [] = []
trim_end (c ∷ text) =
    let rest = trim_end text in if is_whitespace c && is_empty rest then [] else c ∷ rest

unfoldable pub trim : Bytes → Bytes
unfolding trim_start trim_end
trim text = trim_end (trim_start text)

abbrev pub is_digit : ℕ → Bool
is_digit c = leb b'0' c && leb c b'9'

-- The digits of a `u64` behind those that make `value`.
unfoldable pub parse_digits : ℕ → Bytes → Option ℕ
parse_digits value [] = some value
parse_digits value (c ∷ text) =
    let rest = parse_digits (value * 10 + (c - b'0')) text in
    if is_digit c && ltb (value * 10 + (c - b'0')) u64_mod then rest else none

-- A sign may stand in front, but not alone.
unfoldable pub parse_u64 : Bytes → Option ℕ
unfolding parse_digits
parse_u64 [] = none
parse_u64 (c ∷ []) = parse_digits 0 (c ∷ [])
parse_u64 (c ∷ d ∷ text) =
    if nat_eq c b'+' then parse_digits 0 (d ∷ text) else parse_digits 0 (c ∷ d ∷ text)
