-- ===== src/Cli/Command/Reading.antt =====
-- The commands that a line stands for (src/bin/cli/command.rs).
use stateless_payments.Common.{ℕ, ◌<◌, Bytes, ◌≡◌, refl, ap, ◌∙◌, some, List, [], ◌∷◌, arith}
use stateless_payments.Common.Words.{u64_mod}
use stateless_payments.Common.Outcome.{ok}
use stateless_payments.External.Bls.{Bls}
use stateless_payments.Types.Balance.Serde.{KeyCodec, quoted}
use stateless_payments.Cli.Text.{codes, trim, split_whitespace}
use stateless_payments.Cli.Text.Words.{Spaced, Spaced-words, trim-words}
use stateless_payments.Cli.Text.Decimal.{decimal, parse_u64-decimal, parse_u64-lt}
use stateless_payments.Cli.Command.{
  Command, append_transaction_to_batch, send_batch_to_server, print_balance, deposit, exit,
  parse_amount, read_append, read_deposit, read_parts, try_from,
}

module _ ⦃b : Bls⦄ ⦃k : KeyCodec⦄ where
  -- The words of a command. Three of them pass over what follows their name.
  pub data Written : Command → List Bytes → Type 0 where
    append :
        (to : b.PublicKey) (key : Bytes) (amount : ℕ)
        → k.key_from_json (quoted key) ≡ some to
        → amount < u64_mod
        → Written
            (append_transaction_to_batch to amount)
            (codes "append_tx" ∷ key ∷ decimal amount ∷ [])
    deposits :
        (amount : ℕ)
        → amount < u64_mod
        → Written (deposit amount) (codes "deposit" ∷ decimal amount ∷ [])
    sends : (rest : List Bytes) → Written send_batch_to_server (codes "send_batch" ∷ rest)
    prints : (rest : List Bytes) → Written print_balance (codes "balance" ∷ rest)
    exits : (rest : List Bytes) → Written exit (codes "exit" ∷ rest)

  read_parts-Written :
      {command : Command} {words : List Bytes}
      → Written command words
      → read_parts words ≡ ok command
  unfolding read_parts read_append read_deposit
  read_parts-Written (append to key amount valid small) =
      rw (valid, parse_u64-decimal amount small) refl
  read_parts-Written (deposits amount small) = rw (parse_u64-decimal amount small) refl
  read_parts-Written (sends rest) = refl
  read_parts-Written (prints rest) = refl
  read_parts-Written (exits rest) = refl

  -- A line of a command's words, with any blanks between and around them, is read as that command,
  -- also when it is trimmed first: the amount is a `u64` in decimal, and the key is what the words
  -- have between the quotes of its JSON.
  pub try_from-Written :
      {command : Command} {words : List Bytes} {line : Bytes}
      → Written command words
      → Spaced words line
      → (try_from line ≡ ok command) × (try_from (trim line) ≡ ok command)
  unfolding try_from
  try_from-Written {line = line} written spaced =
      let read = ap read_parts (Spaced-words spaced) ∙ read_parts-Written written in
      (read, ap read_parts (trim-words line) ∙ read)

  abbrev pub amount_of : Command → ℕ
  amount_of (append_transaction_to_batch to amount) = amount
  amount_of (deposit amount) = amount
  amount_of _ = 0

  parse_amount-lt : (text : Bytes) {n : ℕ} → parse_amount text ≡ ok n → n < u64_mod
  parse_amount-lt text {n} h = ground (arith, parse_u64-lt text {n = n})

  read_append-lt :
      (arguments : List Bytes) {command : Command}
      → read_append arguments ≡ ok command
      → amount_of command < u64_mod
  unfolding read_append
  read_append-lt [] h = absurd (cc)
  read_append-lt (key ∷ []) h = absurd (cc)
  read_append-lt (key ∷ amount ∷ []) h = grind (arith, parse_u64-lt)
  read_append-lt (key ∷ amount ∷ more ∷ rest) h = absurd (cc)

  read_deposit-lt :
      (arguments : List Bytes) {command : Command}
      → read_deposit arguments ≡ ok command
      → amount_of command < u64_mod
  unfolding read_deposit
  read_deposit-lt [] h = absurd (cc)
  read_deposit-lt (amount ∷ []) h = grind (arith, parse_u64-lt)
  read_deposit-lt (amount ∷ more ∷ rest) h = absurd (cc)

  read_parts-lt :
      (words : List Bytes) {command : Command}
      → read_parts words ≡ ok command
      → amount_of command < u64_mod
  unfolding read_parts
  read_parts-lt [] h = absurd (cc)
  read_parts-lt (name ∷ arguments) {command} h = ground (
    arith,
    read_append-lt arguments {command = command},
    read_deposit-lt arguments {command = command},
  )

  -- The amount of a command that a line is read as is a `u64`.
  try_from-lt :
      (line : Bytes) {command : Command} → try_from line ≡ ok command → amount_of command < u64_mod
  unfolding try_from
  try_from-lt line h = read_parts-lt (split_whitespace line) h
