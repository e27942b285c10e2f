-- ===== src/External/Sha2.antt =====
-- The crate `sha2`: `Sha256::new`, `update` and `finalize`, as the digest of all that was fed in.
use stateless_payments.Common.{Bytes}

pub record Sha256 : Type 0 where
  pub digest : Bytes → Bytes
