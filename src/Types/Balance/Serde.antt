-- ===== src/Types/Balance/Serde.antt =====
-- `Serialize` and `Deserialize` of `BalanceProofKey` (src/types/balance.rs), and `Deserialize` of
-- `BlsPublicKeyWrapper` (src/types/public_key.rs). Texts are lists of bytes.
use stateless_payments.Common.{
  ℕ, Bytes, nat_eq, if◌then◌else◌, ◌≡◌, ◌≢◌, Option, none, some, List, [], ◌∷◌, ◌++◌, All, length,
}
use stateless_payments.Common.Outcome.{ok, err, ok_or, ◌>>=◌}
use stateless_payments.External.Bls.{Bls}
use stateless_payments.Types.PublicKey.{BlsPublicKeyWrapper, wrap, unwrap}
use stateless_payments.Types.Errors.{
  CrateResult, anyhow, missing_root, missing_public_key, invalid_base64, invalid_length,
  invalid_json,
}
use stateless_payments.Types.Balance.{BalanceProofKey}

abbrev pub colon : ℕ
colon = b':'

-- `format!("\"{}\"", s)`
abbrev pub quoted : Bytes → Bytes
quoted s = b'"' ∷ s ++ b'"' ∷ []

module _ ⦃b : Bls⦄ where
  -- `base64` with the standard alphabet, and `serde_json` at texts and at keys.
  pub record KeyCodec : Type 0 where
    pub encode : Bytes → Bytes
    pub decode : Bytes → Option Bytes
    pub key_to_json : b.PublicKey → Option Bytes
    pub string_from_json : Bytes → Option Bytes
    pub key_from_json : Bytes → Option b.PublicKey
    pub decode-encode : (m : Bytes) → decode (encode m) ≡ some m
    -- The alphabet has no colon.
    pub encode_no_colon : (m : Bytes) → All (λ c. c ≢ b':') (encode m)
    -- A key is written as a JSON string, which reads back as its content; that, quoted, is the key.
    pub key_json :
        (p : b.PublicKey)
        → (t s : Bytes) × (key_to_json p ≡ some t)
          × (string_from_json t ≡ some s)
          × (key_from_json (quoted s) ≡ some p)

-- `s.splitn(2, ':')`: the text before the first colon, then all behind it.
unfoldable pub splitn_2 : Bytes → List Bytes
splitn_2 [] = [] ∷ []
splitn_2 (c ∷ s) =
    if nat_eq c b':'
    then [] ∷ s ∷ []
    else elim (splitn_2 s) [ [] ↦ (c ∷ []) ∷ [] | part ∷ parts ↦ (c ∷ part) ∷ parts ]

-- `parts.next()`, the first and the second time.
abbrev pub first_part : List Bytes → Option Bytes
first_part [] = none
first_part (part ∷ parts) = some part

abbrev pub second_part : List Bytes → Option Bytes
second_part [] = none
second_part (part ∷ parts) = first_part parts

module _ ⦃b : Bls⦄ ⦃c : KeyCodec⦄ where
  -- `BalanceProofKey::serialize`, up to `serialize_str`
  unfoldable pub serialize_key : BalanceProofKey → CrateResult Bytes
  serialize_key self = do
    let root_str = c.encode self.root
    public_key_str ← ok_or (c.key_to_json (unwrap self.public_key)) (anyhow invalid_json)
    ok (root_str ++ b':' ∷ public_key_str)

  -- `BlsPublicKeyWrapper::deserialize`
  unfoldable pub deserialize_wrapper : Bytes → CrateResult BlsPublicKeyWrapper
  deserialize_wrapper text = do
    s ← ok_or (c.string_from_json text) (anyhow invalid_json)
    key ← ok_or (c.key_from_json (quoted s)) (anyhow invalid_json)
    ok (wrap key)

  -- `try_into::<[u8; 32]>`
  abbrev pub try_into_32 : Bytes → CrateResult Bytes
  try_into_32 bytes = if nat_eq (length bytes) 32 then ok bytes else err (anyhow invalid_length)

  -- `BalanceProofKey::deserialize`, from the text on
  unfoldable pub deserialize_key : Bytes → CrateResult BalanceProofKey
  unfolding splitn_2 deserialize_wrapper
  deserialize_key s = do
    let parts = splitn_2 s
    root_str ← ok_or (first_part parts) (anyhow missing_root)
    public_key_str ← ok_or (second_part parts) (anyhow missing_public_key)
    decoded ← ok_or (c.decode root_str) (anyhow invalid_base64)
    root ← try_into_32 decoded
    public_key ← deserialize_wrapper public_key_str
    ok (record { root = root; public_key = public_key })
