-- ===== src/Types/Errors.antt =====
-- src/errors.rs, and the errors made by `anyhow!`: one constructor for each message. The values that
-- a message formats are left out, but for the batch that callers look at.
use stateless_payments.External.Bls.{Bls}
use stateless_payments.Types.Transaction.{TransactionBatch}
use stateless_payments.Common.Outcome.{Result, ok, err, panic}

pub data Message : Type 0 where
  invalid_state no_transactions_to_collect transaction_already_exists no_transactions : Message
  not_found_generating_proof not_found_adding_signature no_signatures : Message
  insufficient_funds : Message
  invalid_transaction_proof_for balance_is_negative : Message
  batch_currently_pending cannot_send_to_self amount_must_be_positive insufficient_balance : Message
  batch_is_empty batch_already_pending : Message
  not_addressed_to_user invalid_transaction not_in_senders_proof balance_not_found : Message
  no_batch_to_sign proof_does_not_match batch_not_from_user invalid_transaction_proof : Message
  missing_root missing_public_key invalid_base64 invalid_length invalid_json : Message
  io_error : Message
  no_proof_for_root empty_command wrong_number_of_arguments invalid_number invalid_command
        input_exited :
      Message
  must_send_public_key : Message
  websocket_error connection_closed invalid_message_type : Message

module _ ⦃b : Bls⦄ where
  pub data CrateError : Type 0 where
    batch_not_in_a_transfer_block : TransactionBatch → CrateError

  -- `anyhow::Error`
  pub data Error : Type 0 where
    anyhow : Message → Error
    crate_error : CrateError → Error
    bls_error : b.BlsError → Error

  abbrev pub CrateResult : Type 0 → Type 0
  CrateResult A = Result Error A

  -- `?` on a result of `blsful`.
  abbrev pub from_bls : {A : Type 0} → Result b.BlsError A → CrateResult A
  from_bls (ok a) = ok a
  from_bls (err e) = err (bls_error e)
  from_bls panic = panic
