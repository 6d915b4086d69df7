-- ===== src/OAuth/Pkce.antt =====
-- crates/geonosis-protocol-oauth/src/pkce.rs: proof keys of authorization codes. SHA-256 and the
-- unpadded URL-safe base64 of the dependencies are parameters.
pub mod Verifier
use geonosis.Base.{
  ℕ, String, Bool, true, false, not, ◌||◌, List, [], ◌∷◌, Result, ok, err, ◌>>=◌, if◌then◌else◌,
  leb, ltb, nat_beq, length, any, all, ◌≡◌,
}
use geonosis.OAuth.Bytes.{as_bytes, bit_xor, bit_or, eq_ignore_ascii_case}

pub data PkceError : Type 0 where
  plain_rejected : PkceError
  unsupported_method : String → PkceError
  invalid_verifier verifier_mismatch : PkceError

abbrev pub unreserved : String
unreserved = "ABCDEFGHIJKLMNOPQRSTUVWXYZabcdefghijklmnopqrstuvwxyz0123456789-._~"

unfoldable pub validate_code_verifier : String → Result PkceError (Unit {0})
validate_code_verifier verifier =
    if ltb (length (as_bytes verifier)) 43 || ltb 128 (length (as_bytes verifier))
    then err invalid_verifier
    else if not (all (λ b. any (nat_beq b) (as_bytes unreserved)) (as_bytes verifier))
    then err invalid_verifier
    else ok tt

-- The loop of `constant_time_eq_str` over the zipped bytes, with `diff` so far.
unfoldable pub difference : ℕ → List ℕ → List ℕ → ℕ
difference diff [] ys = diff
difference diff (x ∷ xs) [] = diff
difference diff (x ∷ xs) (y ∷ ys) = difference (bit_or 8 diff (bit_xor 8 x y)) xs ys

unfoldable pub constant_time_eq_str : String → String → Bool
constant_time_eq_str a b =
    if not (nat_beq (length (as_bytes a)) (length (as_bytes b)))
    then false
    else nat_beq (difference 0 (as_bytes a) (as_bytes b)) 0

module _ (sha256 : List ℕ → List ℕ) (encode : List ℕ → String) where
  unfoldable pub derive_challenge_s256 : String → Result PkceError String
  derive_challenge_s256 code_verifier =
      validate_code_verifier code_verifier >>= λ u. ok (encode (sha256 (as_bytes code_verifier)))

  unfoldable pub verify_code_verifier_against_challenge :
      String → String → String → Result PkceError (Unit {0})
  verify_code_verifier_against_challenge method verifier challenge =
      if eq_ignore_ascii_case method "plain"
      then err plain_rejected
      else if not (eq_ignore_ascii_case method "S256")
      then err (unsupported_method method)
      else derive_challenge_s256 verifier >>= λ derived.
          if not (constant_time_eq_str derived challenge) then err verifier_mismatch else ok tt
