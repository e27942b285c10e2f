-- ===== src/Cli/Command.antt =====
-- src/bin/cli/command.rs: a line of input as a command.
pub mod Reading
use stateless_payments.Common.{
  ℕ, Bytes, bytes_eq, not, if◌then◌else◌, nat_eq, length, Option, none, some, List, [], ◌∷◌,
}
use stateless_payments.Common.Outcome.{ok, err, panic, ok_or, fail_if, ◌>>=◌, ◌>>◌}
use stateless_payments.External.Bls.{Bls}
use stateless_payments.Types.Errors.{
  CrateResult, anyhow, empty_command, wrong_number_of_arguments, invalid_number, invalid_command,
}
use stateless_payments.Types.Balance.Serde.{KeyCodec, quoted}
use stateless_payments.Cli.Text.{codes, split_whitespace, parse_u64}

module _ ⦃b : Bls⦄ where
  pub data Command : Type 0 where
    append_transaction_to_batch : b.PublicKey → ℕ → Command
    send_batch_to_server : Command
    print_balance : Command
    deposit : ℕ → Command
    exit : Command

  -- `unwrap()` on an option or a result.
  abbrev unwrap_option : {A : Type 0} → Option A → CrateResult A
  unwrap_option none = panic
  unwrap_option (some a) = ok a

  -- `parse::<u64>()?`
  abbrev pub parse_amount : Bytes → CrateResult ℕ
  parse_amount text = ok_or (parse_u64 text) (anyhow invalid_number)

  module _ ⦃k : KeyCodec⦄ where
    -- The arm of `append_tx`: a key that is not well formed panics.
    unfoldable pub read_append : List Bytes → CrateResult Command
    read_append (key ∷ amount ∷ []) = do
      public_key ← unwrap_option (k.key_from_json (quoted key))
      n ← parse_amount amount
      ok (append_transaction_to_batch public_key n)
    read_append _ = err (anyhow wrong_number_of_arguments)

    unfoldable pub read_deposit : List Bytes → CrateResult Command
    read_deposit (amount ∷ []) = do n ← parse_amount amount; ok (deposit n)
    read_deposit _ = err (anyhow wrong_number_of_arguments)

    -- The `match` on the first word.
    unfoldable pub read_parts : List Bytes → CrateResult Command
    read_parts [] = err (anyhow empty_command)
    read_parts (name ∷ arguments) =
        if bytes_eq name (codes "append_tx")
        then read_append arguments
        else if bytes_eq name (codes "deposit")
        then read_deposit arguments
        else if bytes_eq name (codes "send_batch")
        then ok send_batch_to_server
        else if bytes_eq name (codes "balance")
        then ok print_balance
        else if bytes_eq name (codes "exit")
        then ok exit
        else err (anyhow invalid_command)

    -- `TryFrom<&str>`
    unfoldable pub try_from : Bytes → CrateResult Command
    try_from value = read_parts (split_whitespace value)
