-- ===== src/Cli/Input/Exiting.antt =====
-- What ends the handling of input (src/bin/cli/user_input.rs).
use stateless_payments.Common.{
  Bytes, ◌≡◌, ◌≢◌, refl, sym, ap, ◌∙◌, none, List, [], ◌∷◌, ◌++◌, append_assoc, arith,
}
use stateless_payments.Common.Outcome.{ok, err, panic, on_ok_elim}
use stateless_payments.External.Bls.{Bls}
use stateless_payments.External.Tungstenite.{Tungstenite}
use stateless_payments.Types.Errors.{CrateResult, anyhow, invalid_command, input_exited}
use stateless_payments.Types.Balance.Serde.{KeyCodec, quoted}
use stateless_payments.Rollup.Traits.{MockRollupStateTrait}
use stateless_payments.Websocket.Messages.{SerdeWsMessage}
use stateless_payments.Websocket.Client.{Client}
use stateless_payments.Cli.Text.{codes, trim}
use stateless_payments.Cli.Text.Words.{Spaced, Spaced-words, trim-words}
use stateless_payments.Cli.Command
use stateless_payments.Cli.Command.{
  Command, append_transaction_to_batch, send_batch_to_server, print_balance, deposit, exit,
  read_append, read_parts,
}
use stateless_payments.Cli.Command.Reading.{exits, try_from-Written}
use stateless_payments.Cli.Input.{
  Printed, prompt, error, Line, Handled, print_first, respond, run_command, handle_new_line,
  input_loop,
}

module _ ⦃b : Bls⦄ ⦃k : KeyCodec⦄ where
  panics :
      (line key amount : Bytes)
      → Spaced (codes "append_tx" ∷ key ∷ amount ∷ []) line
      → k.key_from_json (quoted key) ≡ none
      → Command.try_from (trim line) ≡ panic
  unfolding Command.try_from
  panics line key amount spaced bad =
      ap read_parts (trim-words line ∙ Spaced-words spaced)
      ∙ (unfold read_parts read_append in rw bad refl)

module _ ⦃b : Bls⦄ ⦃ws : Tungstenite⦄ ⦃w : SerdeWsMessage⦄ {State : Type 0}
    ⦃mock : MockRollupStateTrait State⦄ ⦃k : KeyCodec⦄ where
  run_command-ne-exit :
      (line : Line State) (command : Command) (client : Client) (rollup : State)
      → (run_command line command client rollup).0 ≢ ok exit
  unfolding run_command
  run_command-ne-exit line (append_transaction_to_batch to amount) client rollup h = ground arith
  run_command-ne-exit line send_batch_to_server client rollup h = ground arith
  run_command-ne-exit line print_balance client rollup h = cc
  run_command-ne-exit line (deposit amount) client rollup h = ground arith
  run_command-ne-exit line exit client rollup h = cc

  handle_new_line-ne-exit :
      (line : Line State) (client : Client) (rollup : State)
      → (handle_new_line line client rollup).0 ≢ ok exit
  unfolding handle_new_line
  handle_new_line-ne-exit line client rollup =
      on_ok_elim (λ x. x.0 ≢ ok exit) (Command.try_from (trim line.content)) ([], (client, rollup))
        (λ command. run_command line command client rollup) (λ e h. cc) (λ h. cc)
        (λ command read. run_command-ne-exit line command client rollup)

  print_first-append :
      (front back : List Printed) (x : Handled State (Unit {0}))
      → print_first front (print_first back x) ≡ print_first (front ++ back) x
  print_first-append front back x = ground (arith, append_assoc front back x.1.0)

  respond-goes_on :
      (r : CrateResult Command) (printed : List Printed) (left : Client × State)
      → r ≢ ok exit
      → (later : Handled State (Unit {0})) → (respond r printed left later).0 ≢ panic
      → (front : List Printed) × ((x : Handled State (Unit {0}))
          → respond r printed left x ≡ print_first front x)
  unfolding respond
  respond-goes_on (ok (append_transaction_to_batch to amount)) printed left h later k =
      (printed ++ prompt ∷ [], λ x. refl)
  respond-goes_on (ok send_batch_to_server) printed left h later k =
      (printed ++ prompt ∷ [], λ x. refl)
  respond-goes_on (ok print_balance) printed left h later k = (printed ++ prompt ∷ [], λ x. refl)
  respond-goes_on (ok (deposit amount)) printed left h later k = (printed ++ prompt ∷ [], λ x. refl)
  respond-goes_on (ok exit) printed left h later k = absurd (h refl)
  respond-goes_on (err e) printed left h later k = (printed ++ error e ∷ prompt ∷ [], λ x. refl)
  respond-goes_on panic printed left h later k = absurd (k refl)

  -- Lines without a panic stop nothing: the lines behind them are handled as if they came first,
  -- from the client and the contract that are left, and their output follows. A line that says
  -- `exit` is no exception.
  pub input_loop-append :
      (front back : List (Line State)) (client : Client) (rollup : State)
      → (input_loop front client rollup).0 ≢ panic
      → let (result, (printed, (client', rollup'))) = input_loop front client rollup in
        (result ≡ err (anyhow input_exited))
        × (input_loop (front ++ back) client rollup
            ≡ print_first printed (input_loop back client' rollup'))
  input_loop-append [] back client rollup h = unfold input_loop in (refl, refl)
  input_loop-append (line ∷ front) back client rollup h =
      let (handled, (printed, left)) = handle_new_line line client rollup in
      let (shown, goes_on) =
        respond-goes_on handled printed left (handle_new_line-ne-exit line client rollup)
          (input_loop front left.0 left.1) (unfold input_loop in h) in
      let now : input_loop (line ∷ front) client rollup
          ≡ print_first shown (input_loop front left.0 left.1) =
        unfold input_loop in goes_on (input_loop front left.0 left.1) in
      let all : input_loop (line ∷ (front ++ back)) client rollup
          ≡ print_first shown (input_loop (front ++ back) left.0 left.1) =
        unfold input_loop in goes_on (input_loop (front ++ back) left.0 left.1) in
      let (ends, rest) =
        input_loop-append front back left.0 left.1 (λ e. h (ap (λ x. x.0) now ∙ e)) in
      (
        ap (λ x. x.0) now ∙ ends,
        all
            ∙ ap (print_first shown) rest
            ∙ print_first-append shown _ _
            ∙ sym (ap (λ x. print_first x.1.0 (input_loop back x.1.1.0 x.1.1.1)) now),
      )

  -- A line that says `exit`, with any blanks, is answered by an error; the client and the contract
  -- stay, and the rest of the lines is handled.
  pub exit_ignored :
      (line : Line State) (rest : List (Line State)) (words : List Bytes) (client : Client)
      (rollup : State)
      → Spaced (codes "exit" ∷ words) line.content
      → input_loop (line ∷ rest) client rollup
        ≡ print_first (error (anyhow invalid_command) ∷ prompt ∷ []) (input_loop rest client rollup)
  unfolding input_loop handle_new_line run_command
  exit_ignored line rest words client rollup spaced =
      rw ((try_from-Written (exits words) spaced).1) refl

  -- A payment to a key that is not well formed panics: the rest of the lines is never handled, and
  -- nothing is printed.
  pub bad_key_ends :
      (line : Line State) (rest : List (Line State)) (key amount : Bytes) (client : Client)
      (rollup : State)
      → Spaced (codes "append_tx" ∷ key ∷ amount ∷ []) line.content
      → k.key_from_json (quoted key) ≡ none
      → input_loop (line ∷ rest) client rollup ≡ (panic, ([], (client, rollup)))
  unfolding input_loop handle_new_line
  bad_key_ends line rest key amount client rollup spaced bad =
      rw (panics line.content key amount spaced bad) refl
