-- ===== src/Cli/Input.antt =====
-- src/bin/cli/user_input.rs: the lines that a user types, one after the other. Writing to the
-- standard output always succeeds.
pub mod Exiting
use stateless_payments.Common.{ℕ, Bytes, Bool, true, false, if◌then◌else◌, List, [], ◌∷◌, ◌++◌}
use stateless_payments.Common.Outcome.{ok, err, panic, map_ok, on_ok}
use stateless_payments.External.Bls.{Bls}
use stateless_payments.External.Tungstenite.{Tungstenite}
use stateless_payments.Types.Errors.{CrateResult, Error, anyhow, invalid_command, input_exited}
use stateless_payments.Types.Balance.Serde.{KeyCodec}
use stateless_payments.Rollup.Traits.{MockRollupStateTrait}
use stateless_payments.Wallet.Wallet
use stateless_payments.Websocket.Messages.{SerdeWsMessage}
use stateless_payments.Websocket.Client.{Client, send_transaction_batch}
use stateless_payments.Cli.Text.{trim}
use stateless_payments.Cli.Command
use stateless_payments.Cli.Command.{
  Command, append_transaction_to_batch, send_batch_to_server, print_balance, deposit, exit,
}

module _ ⦃b : Bls⦄ where
  -- What is written to the standard output.
  pub data Printed : Type 0 where
    prompt : Printed
    error : Error → Printed
    balance : ℕ → Printed
    deposited : (amount prev_balance new_balance : ℕ) → Printed

  abbrev pub is_exit : Command → Bool
  is_exit exit = true
  is_exit _ = false

module _ ⦃b : Bls⦄ ⦃ws : Tungstenite⦄ (State : Type 0) where
  -- A line, the salt that its command draws, and what the other tasks do while it sleeps.
  pub record Line : Type 0 where
    pub content : Bytes
    pub salt : Bytes
    pub meanwhile : Client → State → Client × State

  -- What a line or a run of lines ends in and prints, and what it leaves.
  abbrev pub Handled : Type 0 → Type 0
  Handled A = CrateResult A × (List Printed × (Client × State))

module _ ⦃b : Bls⦄ ⦃ws : Tungstenite⦄ {State : Type 0} where
  abbrev pub print_first : {A : Type 0} → List Printed → Handled State A → Handled State A
  print_first front (result, (printed, left)) = (result, (front ++ printed, left))

  -- The `match` of the loop on what a line ended in, given what comes of the later lines.
  unfoldable pub respond :
      CrateResult Command
      → List Printed
      → Client × State
      → Handled State (Unit {0})
      → Handled State (Unit {0})
  respond (ok command) printed left later =
      if is_exit command
      then (err (anyhow input_exited), (printed, left))
      else print_first (printed ++ prompt ∷ []) later
  respond (err e) printed left later = print_first (printed ++ error e ∷ prompt ∷ []) later
  respond panic printed left later = (panic, (printed, left))

module _ ⦃b : Bls⦄ ⦃ws : Tungstenite⦄ ⦃w : SerdeWsMessage⦄ {State : Type 0}
    ⦃mock : MockRollupStateTrait State⦄ where
  -- The `match` of `handle_new_line`, which has no arm for `exit`.
  unfoldable pub run_command : Line State → Command → Client → State → Handled State Command
  unfolding send_transaction_batch Wallet.append_transaction_to_batch
  run_command line (append_transaction_to_batch to amount) client rollup_state =
      let (appended, wallet) =
        Wallet.append_transaction_to_batch to amount line.salt client.wallet in
      (
        map_ok (λ _. append_transaction_to_batch to amount) appended,
        ([], (record client { wallet = wallet }, rollup_state)),
      )
  run_command line send_batch_to_server client rollup_state =
      let (sent, client') = send_transaction_batch client in
      (map_ok (λ _. send_batch_to_server) sent, ([], (client', rollup_state)))
  run_command line print_balance client rollup_state =
      (ok print_balance, (balance client.wallet.balance ∷ [], (client, rollup_state)))
  run_command line (deposit amount) client rollup_state =
      let (added, rollup_state') = mock.add_deposit client.wallet.public_key amount rollup_state in
      on_ok added ([], (client, rollup_state'))
        λ _.
          let (client', rollup_state'') = line.meanwhile client rollup_state' in
          (
            ok (deposit amount),
            (
              deposited amount client.wallet.balance client'.wallet.balance ∷ [],
              (client', rollup_state''),
            ),
          )
  run_command line exit client rollup_state =
      (err (anyhow invalid_command), ([], (client, rollup_state)))

  module _ ⦃k : KeyCodec⦄ where
    unfoldable pub handle_new_line : Line State → Client → State → Handled State Command
    handle_new_line line client rollup_state =
        on_ok (Command.try_from (trim line.content)) ([], (client, rollup_state))
          λ command. run_command line command client rollup_state

    -- The loop of `spawn_user_input_handler` over what is read, behind its first prompt.
    unfoldable pub input_loop : List (Line State) → Client → State → Handled State (Unit {0})
    unfolding respond
    input_loop [] client rollup_state = (err (anyhow input_exited), ([], (client, rollup_state)))
    input_loop (line ∷ rest) client rollup_state =
        let (handled, (printed, (client', rollup_state'))) =
          handle_new_line line client rollup_state in
        respond handled printed (client', rollup_state') (input_loop rest client' rollup_state')
