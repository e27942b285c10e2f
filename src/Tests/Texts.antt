-- ===== src/Tests/Texts.antt =====
-- Serialisers of the contract, of wallets and of balance proof keys, for the tests.
use stateless_payments.Common.{
  ℕ, zero, suc, ◌+◌, ◌-◌, Bytes, ◌≡◌, ◌≢◌, refl, Option, none, some, List, [], ◌∷◌, All, arith,
  Bool, true, ◌&&◌, if◌then◌else◌, ap, sym, ◌∙◌, subst,
}
use stateless_payments.Types.PublicKey.{BlsPublicKeyWrapper, AccountTotals, wrap}
use stateless_payments.Types.Transaction.{SimpleTransaction, TransactionBatch, TransactionProof}
use stateless_payments.Types.TransferBlock.{
  TransferBlockSignature, aggregated, individual, TransferBlock, IsAugmented,
}
use stateless_payments.Types.Balance.{BalanceProofKey}
use stateless_payments.Types.Balance.Serde.{KeyCodec, quoted}
use stateless_payments.Rollup.Fs.{RollupState, SerdeRollupState, IsSameState, IsReadable}
use stateless_payments.Wallet.Persist.{
  WalletPersistState, ReadResult, state, eof, broken, SerdeWallet,
}
use stateless_payments.Wallet.Persist
use stateless_payments.Tests.Crates.{toy_bls, ToySignature, is_filled}
use stateless_payments.Tests.Codec.{Codec, nat_codec, pair_codec, list_codec, via_codec}

abbrev pub bytes_codec : Codec Bytes
bytes_codec = list_codec nat_codec

abbrev pub wrapper_codec : Codec BlsPublicKeyWrapper
wrapper_codec = via_codec nat_codec (λ x. x.key) (λ k. wrap k) (λ x. refl)

abbrev totals_codec : Codec AccountTotals
totals_codec = list_codec (pair_codec wrapper_codec nat_codec)

abbrev pub SignatureParts : Type 0
SignatureParts = ℕ × (List ToySignature × List BlsPublicKeyWrapper)

abbrev pub parts_of : TransferBlockSignature → SignatureParts
parts_of (aggregated sig pks) = (0, (sig, pks))
parts_of (individual sig pk) = (1, (sig ∷ [], pk ∷ []))

abbrev pub of_parts : SignatureParts → TransferBlockSignature
of_parts (zero, (sigs, pks)) = aggregated sigs pks
of_parts (suc n, (sig ∷ sigs, pk ∷ pks)) = individual sig pk
of_parts (suc n, (sigs, pks)) = aggregated sigs pks

pub of_parts-parts_of : (x : TransferBlockSignature) → of_parts (parts_of x) ≡ x
of_parts-parts_of (aggregated sig pks) = refl
of_parts-parts_of (individual sig pk) = refl

abbrev signature_codec : Codec TransferBlockSignature
signature_codec =
    via_codec
      (pair_codec nat_codec
        (pair_codec (list_codec (pair_codec nat_codec bytes_codec)) (list_codec wrapper_codec)))
      parts_of of_parts of_parts-parts_of

abbrev block_codec : Codec TransferBlock
block_codec =
    via_codec (pair_codec signature_codec bytes_codec) (λ x. (x.signature, x.merkle_root))
      (λ p. record { signature = p.0; merkle_root = p.1 }) (λ x. refl)

abbrev rollup_codec : Codec RollupState
rollup_codec =
    via_codec (pair_codec totals_codec (pair_codec totals_codec (list_codec block_codec)))
      (λ x. (x.withdraw_totals, (x.deposit_totals, x.transfer_blocks)))
      (λ p. record { withdraw_totals = p.0; deposit_totals = p.1.0; transfer_blocks = p.1.1 })
      (λ x. refl)

abbrev pub read_with : {A : Type 0} → Codec A → Bytes → Option A
read_with c text = elim (c.dec text) [ none ↦ none | some (x, rest) ↦ some x ]

pub read_with-enc : {A : Type 0} (c : Codec A) (x : A) → read_with c (c.enc x []) ≡ some x
read_with-enc c x = ground (arith, c.dec-enc x [])

-- The signature can be read.
abbrev pub is_readable : TransferBlock → Bool
is_readable block = elim (block.signature) [
  | aggregated sig public_keys ↦ is_filled sig
  | individual sig public_key ↦ true
]

abbrev pub all_readable : List TransferBlock → Bool
all_readable [] = true
all_readable (block ∷ blocks) = is_readable block && all_readable blocks

readable_sound :
    (signature : TransferBlockSignature) (root : Bytes)
    → is_readable (record { signature = signature; merkle_root = root }) ≡ true
    → IsAugmented signature
readable_sound (aggregated sig public_keys) root h = h
readable_sound (individual sig public_key) root h = tt

readable_complete :
    (signature : TransferBlockSignature) (root : Bytes)
    → IsAugmented signature
    → is_readable (record { signature = signature; merkle_root = root }) ≡ true
readable_complete (aggregated sig public_keys) root h = h
readable_complete (individual sig public_key) root h = refl

all_readable_sound : (blocks : List TransferBlock) → all_readable blocks ≡ true → IsReadable blocks
all_readable_sound [] h = tt
all_readable_sound (block ∷ blocks) h = (
  readable_sound block.signature block.merkle_root (ground arith),
  all_readable_sound blocks (ground arith),
)

all_readable_complete :
    (blocks : List TransferBlock) → IsReadable blocks → all_readable blocks ≡ true
all_readable_complete [] h = refl
all_readable_complete (block ∷ blocks) h = ground (
  arith,
  readable_complete block.signature block.merkle_root h.0,
  all_readable_complete blocks h.1,
)

abbrev pub keep_readable : Option RollupState → Option RollupState
keep_readable none = none
keep_readable (some x) = if all_readable x.transfer_blocks then some x else none

abbrev pub read_rollup : Bytes → Option RollupState
read_rollup content = keep_readable (read_with rollup_codec content)

read_rollup-enc : (x : RollupState) → read_rollup (rollup_codec.enc x []) ≡ keep_readable (some x)
read_rollup-enc x = ap keep_readable (read_with-enc rollup_codec x)

pub rollup_reads :
    (x : RollupState)
    → IsReadable x.transfer_blocks
    → (back : RollupState) × (read_rollup (rollup_codec.enc x []) ≡ some back)
rollup_reads x h =
    (x, read_rollup-enc x ∙ ground (arith, all_readable_complete x.transfer_blocks h))

kept-IsReadable :
    (found : Option RollupState) {x : RollupState}
    → keep_readable found ≡ some x
    → IsReadable x.transfer_blocks
kept-IsReadable none h = absurd cc
kept-IsReadable (some y) {x} h =
    let readable : all_readable y.transfer_blocks ≡ true = ground arith in
    let same : y ≡ x = ground arith in
    subst (λ z. IsReadable z.transfer_blocks) same (all_readable_sound y.transfer_blocks readable)

pub rollup_read-IsReadable :
    (content : Bytes) (x : RollupState)
    → read_rollup content ≡ some x
    → IsReadable x.transfer_blocks
rollup_read-IsReadable content x h = kept-IsReadable (read_with rollup_codec content) h

pub rollup_reads_back :
    (x back : RollupState) → read_rollup (rollup_codec.enc x []) ≡ some back → IsSameState back x
rollup_reads_back x back h =
    let same : x ≡ back = let kept = sym (read_rollup-enc x) ∙ h in ground arith in
    subst (λ y. IsSameState y x) same
      (record { same_withdraws = λ q. refl; same_deposits = λ q. refl; same_blocks = refl })

instance abbrev pub toy_serde_rollup : SerdeRollupState
toy_serde_rollup = record {
  from_reader = read_rollup;
  to_writer = λ x. rollup_codec.enc x [];
  from_reader-nil = refl;
  reads = rollup_reads;
  from_reader-IsReadable = rollup_read-IsReadable;
  from_reader-to_writer = rollup_reads_back;
}

abbrev pub transaction_codec : Codec SimpleTransaction
transaction_codec =
    via_codec (pair_codec nat_codec (pair_codec nat_codec (pair_codec nat_codec bytes_codec)))
      (λ x. (x.to, (x.from, (x.amount, x.salt))))
      (λ p. record { to = p.0; from = p.1.0; amount = p.1.1.0; salt = p.1.1.1 }) (λ x. refl)

abbrev pub batch_codec : Codec TransactionBatch
batch_codec =
    via_codec (pair_codec nat_codec (list_codec transaction_codec)) (λ x. (x.from, x.transactions))
      (λ p. record { from = p.0; transactions = p.1 }) (λ x. refl)

abbrev pub proof_codec : Codec TransactionProof
proof_codec =
    via_codec
      (pair_codec (list_codec bytes_codec)
        (pair_codec bytes_codec (pair_codec batch_codec (pair_codec nat_codec nat_codec))))
      (λ x. (x.proof_hashes, (x.root, (x.batch, (x.index, x.total_leaves)))))
      (λ p. record {
        proof_hashes = p.0;
        root = p.1.0;
        batch = p.1.1.0;
        index = p.1.1.1.0;
        total_leaves = p.1.1.1.1;
      })
      (λ x. refl)

abbrev pub key_codec : Codec BalanceProofKey
key_codec =
    via_codec (pair_codec bytes_codec wrapper_codec) (λ x. (x.root, x.public_key))
      (λ p. record { root = p.0; public_key = p.1 }) (λ x. refl)

abbrev pub of_name : Option Bytes → List Bytes
of_name none = []
of_name (some n) = n ∷ []

abbrev pub to_name : List Bytes → Option Bytes
to_name [] = none
to_name (n ∷ ns) = some n

pub to_name-of_name : (n : Option Bytes) → to_name (of_name n) ≡ n
to_name-of_name none = refl
to_name-of_name (some n) = refl

abbrev name_codec : Codec (Option Bytes)
name_codec = via_codec (list_codec bytes_codec) of_name to_name to_name-of_name

abbrev wallet_codec : Codec WalletPersistState
wallet_codec =
    via_codec
      (pair_codec (list_codec (pair_codec key_codec proof_codec)) (pair_codec nat_codec name_codec))
      (λ x. (x.balance_proof, (x.private_key, x.wallet_name)))
      (λ p. record { balance_proof = p.0; private_key = p.1.0; wallet_name = p.1.1 }) (λ x. refl)

abbrev pub read_wallet : Bytes → ReadResult
read_wallet [] = eof
read_wallet (n ∷ text) = elim (read_with wallet_codec (n ∷ text)) [
  | none ↦ broken
  | some x ↦ state x
]

pub wallet_reads : (x : WalletPersistState) → read_wallet (wallet_codec.enc x []) ≡ state x
wallet_reads x = rw (read_with-enc wallet_codec x, read_wallet) refl

pub wallet_reads_back :
    (x : WalletPersistState)
    → (back : WalletPersistState) × (read_wallet (wallet_codec.enc x []) ≡ state back)
      × Persist.IsSameState back x
wallet_reads_back x =
    (x, wallet_reads x, record { same_proofs = λ q. refl; same_key = refl; same_name = refl })

instance abbrev pub toy_serde_wallet : SerdeWallet
toy_serde_wallet = record {
  from_reader = read_wallet;
  to_writer = λ x. wallet_codec.enc x [];
  from_reader-nil = refl;
  from_reader-to_writer = wallet_reads_back;
}

-- An alphabet above the colon.
abbrev pub shift : Bytes → Bytes
shift [] = []
shift (c ∷ s) = (c + 59) ∷ shift s

abbrev pub unshift : Bytes → Bytes
unshift [] = []
unshift (c ∷ s) = (c - 59) ∷ unshift s

pub unshift-shift : (s : Bytes) → some (unshift (shift s)) ≡ some s
unshift-shift [] = refl
unshift-shift (c ∷ s) = ground (arith, unshift-shift s)

pub shift_no_colon : (s : Bytes) → All (λ c. c ≢ b':') (shift s)
shift_no_colon [] = tt
shift_no_colon (c ∷ s) = (λ h. omega arith, shift_no_colon s)

abbrev pub toy_key_from_json : Bytes → Option ℕ
toy_key_from_json (q ∷ p ∷ q' ∷ []) = some p
toy_key_from_json _ = none

instance abbrev pub toy_key_codec : KeyCodec
toy_key_codec = record {
  encode = shift;
  decode = λ s. some (unshift s);
  key_to_json = λ p. some (quoted (p ∷ []));
  string_from_json = λ t. elim (toy_key_from_json t) [ none ↦ none | some p ↦ some (p ∷ []) ];
  key_from_json = toy_key_from_json;
  decode-encode = unshift-shift;
  encode_no_colon = shift_no_colon;
  key_json = λ p. (quoted (p ∷ []), p ∷ [], refl, refl, refl);
}
