-- ===== src/AuthWrapper/Instances.antt =====
-- Signatures that are all valid, on which the tests run.
use cashweb_backends.Common.{ℕ, List}
use cashweb_backends.Common.Exec.{ok}
use cashweb_backends.Bitcoin.Instances.{sum_digest}
use cashweb_backends.AuthWrapper.{Signing}

abbrev pub signing : Signing
signing = record {
  PublicKey = List ℕ;
  Signature = List ℕ;
  SecpError = Unit {0};
  sha256 = sum_digest;
  public_from_slice = λ xs. ok xs;
  from_compact = λ xs. ok xs;
  verify_message = λ msg signature key. ok tt;
}
