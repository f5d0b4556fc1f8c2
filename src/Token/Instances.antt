-- ===== src/Token/Instances.antt =====
-- A base64 that copies and an HMAC that prepends its key, on which the tests run.
use cashweb_backends.Common.{
  ℕ, List, ◌++◌, refl, bytes_eq, bytes_eq→eq, bytes_eq_refl, if◌then◌else◌,
}
use cashweb_backends.Common.Exec.{Outcome, ok, err}
use cashweb_backends.Common.Exec.Rules.{if-ok-eq-ok}
use cashweb_backends.Token.HmacBearer.{Base64, IsBase64, Hmac, IsHmac}

abbrev pub plain : Base64
plain = record { Base64Error = Unit {0}; encode = λ xs. xs; decode = λ xs. ok xs }

abbrev pub plain_laws : IsBase64 plain
plain_laws = record { decode-encode = λ xs. refl }

abbrev pub check_tag : List ℕ → List ℕ → List ℕ → Outcome (Unit {0}) (Unit {0})
check_tag key xs tag = if bytes_eq tag (key ++ xs) then ok tt else err tt

abbrev pub prefix_mac : Hmac
prefix_mac = record {
  Key = List ℕ;
  VerifyFailed = Unit {0};
  new_key = λ key. key;
  sign = λ key xs. key ++ xs;
  verify = check_tag;
}

pub prefix_mac-laws : IsHmac prefix_mac
prefix_mac-laws = record {
  verify_iff = λ key xs tag. (
    λ h. bytes_eq→eq tag (key ++ xs) (if-ok-eq-ok (bytes_eq tag (key ++ xs)) tt (ok tt) h).0,
    λ e. rw (e, bytes_eq_refl (key ++ xs)) refl,
  );
}
