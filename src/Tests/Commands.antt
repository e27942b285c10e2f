-- ===== src/Tests/Commands.antt =====
-- Cli at lines of input.
use stateless_payments.Common.{Bytes, ◌≡◌, ◌≢◌, refl, true, [], ◌∷◌, ◌++◌, length, ap, arith}
use stateless_payments.Common.Words.{debug}
use stateless_payments.Common.Outcome.{ok, err, panic}
use stateless_payments.Types.Errors.{anyhow, invalid_command, input_exited}
use stateless_payments.Rollup.Traits.{MockRollupStateTrait}
use stateless_payments.Rollup.Memory.{MockRollupMemory, memory_mock_trait}
use stateless_payments.Websocket.Client.{Client}
use stateless_payments.Cli.Text.{codes, trim, is_whitespace, split_whitespace}
use stateless_payments.Cli.Text.Words.{IsWord, Spaced, last_word, blank, next_word}
use stateless_payments.Cli.Text.Decimal.{decimal, decimal-IsWord}
use stateless_payments.Cli.Command.{append_transaction_to_batch, read_parts, try_from}
use stateless_payments.Cli.Command.Reading.{append, try_from-Written}
use stateless_payments.Cli.Input.{
  Line, prompt, error, print_first, run_command, handle_new_line, input_loop,
}
use stateless_payments.Cli.Input.Exiting.{input_loop-append, exit_ignored, bad_key_ends}
use stateless_payments.Tests.Crates.{toy_bls}
use stateless_payments.Tests.Texts.{toy_key_codec}
use stateless_payments.Tests.Wire.{toy_tungstenite, toy_serde_ws}
use stateless_payments.Tests.Scene.{alice, bob, before_block, wallet_of}

-- The key of bob is a text of one character.
abbrev payment : Bytes
payment = codes " append_tx" ++ 32 ∷ 2 ∷ 32 ∷ decimal 30

append-IsWord : IsWord (codes "append_tx")
unfolding is_whitespace
append-IsWord = (λ h. omega (arith, ap length h), ground arith)

key-IsWord : IsWord (2 ∷ [])
unfolding is_whitespace
key-IsWord = (λ h. omega (arith, ap length h), ground arith)

exit-IsWord : IsWord (codes "exit")
unfolding is_whitespace
exit-IsWord = (λ h. omega (arith, ap length h), ground arith)

space : is_whitespace 32 ≡ true
unfolding is_whitespace
space = refl

payment-Spaced : Spaced (codes "append_tx" ∷ (2 ∷ []) ∷ decimal 30 ∷ []) payment
payment-Spaced = blank 32 space (
    next_word (codes "append_tx") 32 append-IsWord space
      (next_word (2 ∷ []) 32 key-IsWord space (last_word (decimal 30) (decimal-IsWord 30))))

try_from-Written_example :
    (try_from payment ≡ ok (append_transaction_to_batch bob 30))
    × (try_from (trim payment) ≡ ok (append_transaction_to_batch bob 30))
try_from-Written_example =
    try_from-Written (append bob (2 ∷ []) 30 refl (omega arith)) payment-Spaced

instance abbrev toy_mock : MockRollupStateTrait MockRollupMemory
toy_mock = memory_mock_trait debug

abbrev client : Client
client = record { wallet = record (wallet_of alice) { balance = 90 }; ws_send = [] }

abbrev line_of : Bytes → Line MockRollupMemory
line_of content = record { content = content; salt = []; meanwhile = λ c r. (c, r) }

exit_ignored_example :
    input_loop (line_of (codes "exit") ∷ line_of payment ∷ []) client before_block
    ≡ print_first
        (error (anyhow invalid_command) ∷ prompt ∷ [])
        (input_loop (line_of payment ∷ []) client before_block)
exit_ignored_example =
    exit_ignored (line_of (codes "exit")) (line_of payment ∷ []) [] client before_block
      (last_word (codes "exit") exit-IsWord)

-- One that is not well formed.
abbrev misspelt : Bytes
misspelt = codes "append_tx" ++ 32 ∷ codes "me" ++ 32 ∷ decimal 30

me-IsWord : IsWord (codes "me")
unfolding is_whitespace
me-IsWord = (λ h. omega (arith, ap length h), ground arith)

misspelt-Spaced : Spaced (codes "append_tx" ∷ codes "me" ∷ decimal 30 ∷ []) misspelt
misspelt-Spaced =
    next_word (codes "append_tx") 32 append-IsWord space
      (next_word (codes "me") 32 me-IsWord space (last_word (decimal 30) (decimal-IsWord 30)))

bad_key_ends_example :
    input_loop (line_of misspelt ∷ line_of payment ∷ []) client before_block
    ≡ (panic, ([], (client, before_block)))
bad_key_ends_example =
    bad_key_ends (line_of misspelt) (line_of payment ∷ []) (codes "me") (decimal 30) client
      before_block misspelt-Spaced refl

exits_quietly : (input_loop (line_of (codes "exit") ∷ []) client before_block).0 ≢ panic
unfolding input_loop handle_new_line run_command try_from read_parts split_whitespace trim
    is_whitespace
exits_quietly h = cc

input_loop-append_example :
    let (result, (printed, (client', rollup'))) =
      input_loop (line_of (codes "exit") ∷ []) client before_block in
    (result ≡ err (anyhow input_exited))
    × (input_loop (line_of (codes "exit") ∷ line_of payment ∷ []) client before_block
        ≡ print_first printed (input_loop (line_of payment ∷ []) client' rollup'))
input_loop-append_example =
    input_loop-append (line_of (codes "exit") ∷ []) (line_of payment ∷ []) client before_block
      exits_quietly
