-- ===== src/Wallet/Persist.antt =====
-- src/wallet/wallet.rs: the state of a wallet, and the file that it is kept in.
pub mod RoundTrip
use stateless_payments.Common.{
  ℕ, ◌≡◌, Bytes, bytes_Eq, Bool, true, false, Option, none, some, List, [], ◌∷◌, ◌++◌,
  if◌then◌else◌,
}
use stateless_payments.Common.Assoc.{HashMap, lookup, insert}
use stateless_payments.Common.Outcome.{
  Result, ok, err, panic, fail_if, unwrap_result, on_ok, ◌>>=◌, ◌>>◌,
}
use stateless_payments.External.Bls.{Bls}
use stateless_payments.Types.Transaction.{TransactionBatch, new_batch}
use stateless_payments.Types.Errors.{CrateResult, anyhow, io_error, invalid_json}
use stateless_payments.Types.Balance.{BalanceProofKey, BalanceProof, key_Eq}

-- The files of `wallet_data`, and which of the system calls on them fail. A missing file and an empty
-- one read the same.
pub record Files : Type 0 where
  pub contents : HashMap Bytes Bytes
  pub create_dir_fails : Bool
  pub open_fails : Bool
  pub lock_fails : Bool
  pub write_fails : Bool
  pub unlock_fails : Bool
  pub torn : Bytes

abbrev pub content_of : Bytes → Files → Bytes
content_of path files = elim (lookup path files.contents) [ none ↦ [] | some content ↦ content ]

abbrev pub put_content : Bytes → Bytes → Files → Files
put_content path content files = record files { contents = insert path content files.contents }

abbrev pub directory : Bytes
directory = b'w' ∷ b'a' ∷ b'l' ∷ b'l' ∷ b'e' ∷ b't' ∷ b'_' ∷ b'd' ∷ b'a' ∷ b't' ∷ b'a' ∷ b'/' ∷ []

abbrev pub extension : Bytes
extension = b'.' ∷ b'j' ∷ b's' ∷ b'o' ∷ b'n' ∷ []

module _ ⦃b : Bls⦄ where
  pub record Wallet : Type 0 where
    pub wallet_name : Option Bytes
    pub public_key : b.PublicKey
    pub private_key : b.SecretKey
    pub balance_proof : BalanceProof
    pub transaction_batch : TransactionBatch
    pub batch_is_pending : Bool
    pub balance : ℕ

  pub record WalletPersistState : Type 0 where
    pub balance_proof : BalanceProof
    pub private_key : b.SecretKey
    pub wallet_name : Option Bytes

  -- `Into<Wallet>`
  abbrev pub into_wallet : WalletPersistState → Wallet
  into_wallet self = record {
    wallet_name = self.wallet_name;
    public_key = b.public_key self.private_key;
    private_key = self.private_key;
    balance_proof = self.balance_proof;
    transaction_batch = new_batch (b.public_key self.private_key);
    batch_is_pending = false;
    balance = 0;
  }

  -- What `from_reader` makes of a file: a state, the end of the file, or another error.
  pub data ReadResult : Type 0 where
    state : WalletPersistState → ReadResult
    eof : ReadResult
    broken : ReadResult

  -- The same keys and name, and the same balance proof in whatever order it is iterated.
  pub record IsSameState (x y : WalletPersistState) : Type 0 where
    pub same_proofs : (q : BalanceProofKey) → lookup q x.balance_proof ≡ lookup q y.balance_proof
    pub same_key : x.private_key ≡ y.private_key
    pub same_name : x.wallet_name ≡ y.wallet_name

  -- `serde_json::{from_reader, to_writer}` at the state of a wallet.
  pub record SerdeWallet : Type 0 where
    pub from_reader : Bytes → ReadResult
    pub to_writer : WalletPersistState → Bytes
    pub from_reader-nil : from_reader [] ≡ eof
    pub from_reader-to_writer :
        (x : WalletPersistState)
        → (back : WalletPersistState) × (from_reader (to_writer x) ≡ state back)
          × IsSameState back x

  abbrev pub persist_state : Wallet → WalletPersistState
  persist_state self = record {
    balance_proof = self.balance_proof;
    private_key = self.private_key;
    wallet_name = self.wallet_name;
  }

-- The text of `get_wallet_path`.
abbrev pub wallet_path : Bytes → Bytes
wallet_path wallet_name = directory ++ wallet_name ++ extension

module _ ⦃b : Bls⦄ where
  unfoldable pub get_wallet_path : Bytes → Files → CrateResult Bytes
  get_wallet_path wallet_name files =
      fail_if files.create_dir_fails (anyhow io_error) >> ok (wallet_path wallet_name)

  module _ ⦃c : SerdeWallet⦄ where
    -- Opening truncates the file, before the lock is taken.
    unfoldable pub write_file : Bytes → Bytes → Files → CrateResult (Unit {0}) × Files
    write_file path content files =
        if files.open_fails
        then (err (anyhow io_error), files)
        else if files.lock_fails
        then (err (anyhow io_error), put_content path [] files)
        else if files.write_fails
        then (err (anyhow io_error), put_content path files.torn files)
        else (fail_if files.unlock_fails (anyhow io_error), put_content path content files)

    unfoldable pub save_wallet_state : Wallet → Files → CrateResult (Unit {0}) × Files
    unfolding get_wallet_path write_file
    save_wallet_state self files = elim self.wallet_name [
      | none ↦ (ok tt, files)
      | some wallet_name ↦
          on_ok (get_wallet_path wallet_name files) files
            λ path. write_file path (c.to_writer (persist_state self)) files
    ]

    -- The state that `load_wallet_state` finds, given the key that `SecretKey::new` would draw.
    unfoldable pub read_wallet_state : Bytes → b.SecretKey → Files → CrateResult WalletPersistState
    unfolding get_wallet_path
    read_wallet_state wallet_name drawn files = do
      path ← get_wallet_path wallet_name files
      fail_if files.open_fails (anyhow io_error)
      found ← elim (c.from_reader (content_of path files)) [
        | state x ↦ ok x
        | eof ↦
            ok (record { balance_proof = []; private_key = drawn; wallet_name = some wallet_name })
        | broken ↦ err (anyhow invalid_json)
      ]
      elim files.unlock_fails [ true ↦ panic | false ↦ ok found ]

    unfoldable pub load_wallet_state : Bytes → b.SecretKey → Files → CrateResult Wallet × Files
    unfolding read_wallet_state save_wallet_state
    load_wallet_state wallet_name drawn files =
        on_ok (read_wallet_state wallet_name drawn files) files λ found.
          let wallet = into_wallet found in
          let (saved, files') = save_wallet_state wallet files in (saved >> ok wallet, files')

    -- `Wallet::new`
    unfoldable pub new : Option Bytes → b.SecretKey → Files → CrateResult Wallet × Files
    unfolding load_wallet_state
    new none drawn files = (
      ok (into_wallet (record { balance_proof = []; private_key = drawn; wallet_name = none })),
      files,
    )
    new (some wallet_name) drawn files =
        let (loaded, files') = load_wallet_state wallet_name drawn files in
        (unwrap_result loaded, files')
