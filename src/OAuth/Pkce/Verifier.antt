-- ===== src/OAuth/Pkce/Verifier.antt =====
-- When a code verifier is accepted, crates/geonosis-protocol-oauth/src/pkce.rs.
use geonosis.Base.{
  ℕ, String, true, false, not, List, [], ◌∷◌, ok, err, >>=-eq-ok, if◌then◌else◌, nat_beq,
  nat_beq_iff, length, map, any, all, ◌≡◌, ◌↔◌, ◌≤◌, inl, inr, refl, subst, sym, ap, ◌∙◌, All, In,
  Bool-cases, arith, ltb→lt, lt→ltb,
}
use geonosis.OAuth.Bytes.{
  as_bytes, as_bytes-Fits, bit_xor, bit_or, eq_ignore_ascii_case, bytes_eq, bytes_eq_sound,
  to_ascii_lowercase, Fits, Fits-0, bit_xor-zero, bit_xor_self, bit_or-zero, bit_or-0, bit_xor-Fits,
  bit_or-Fits,
}
use geonosis.OAuth.Pkce.{
  verifier_mismatch, unreserved, validate_code_verifier, difference, constant_time_eq_str,
  derive_challenge_s256, verify_code_verifier_against_challenge,
}

-- No difference is left exactly between equal lists of bytes.
difference-zero :
    (diff : ℕ) (xs ys : List ℕ)
    → Fits 8 diff
    → All (Fits 8) xs
    → All (Fits 8) ys
    → length xs ≡ length ys
    → difference diff xs ys ≡ 0
    → (diff ≡ 0) × (xs ≡ ys)
unfolding difference
difference-zero diff [] [] fd fx fy l h = (h, refl)
difference-zero diff [] (y ∷ ys) fd fx fy l h = ground arith
difference-zero diff (x ∷ xs) [] fd fx fy l h = ground arith
difference-zero diff (x ∷ xs) (y ∷ ys) fd (fx, fxs) (fy, fys) l h =
    let (merged, rest) =
      difference-zero (bit_or 8 diff (bit_xor 8 x y)) xs ys (bit_or-Fits 8 diff (bit_xor 8 x y)) fxs
        fys (omega arith) h in
    let (before, here) = bit_or-zero 8 diff (bit_xor 8 x y) fd (bit_xor-Fits 8 x y) merged in
    let same = bit_xor-zero 8 x y fx fy here in (before, cc)

difference_self : (xs : List ℕ) → difference 0 xs xs ≡ 0
unfolding difference
difference_self [] = refl
difference_self (x ∷ xs) =
    ap (λ (d : ℕ). difference d xs xs) (ap (bit_or 8 0) (bit_xor_self 8 x) ∙ bit_or-0 8)
    ∙ difference_self xs

-- The comparison in constant time decides whether two strings have the same bytes.
pub constant_time_eq_str_iff :
    (a b : String) → (constant_time_eq_str a b ≡ true) ↔ (as_bytes a ≡ as_bytes b)
unfolding constant_time_eq_str
constant_time_eq_str_iff a b = (
  λ h.
      (difference-zero 0 (as_bytes a) (as_bytes b) (Fits-0 8) (as_bytes-Fits a) (as_bytes-Fits b)
        (ground (arith, nat_beq_iff (length (as_bytes a)) (length (as_bytes b))))
        (ground (arith, nat_beq_iff (difference 0 (as_bytes a) (as_bytes b)) 0))).1,
  λ e.
      subst
        (λ (bs : List ℕ).
          (if not (nat_beq (length (as_bytes a)) (length bs))
            then false
            else nat_beq (difference 0 (as_bytes a) bs) 0)
          ≡ true)
        e
        (ground (
          arith,
          nat_beq_iff (length (as_bytes a)) (length (as_bytes a)),
          nat_beq_iff (difference 0 (as_bytes a) (as_bytes a)) 0,
          difference_self (as_bytes a),
        )),
)

-- A verifier as RFC 7636 wants it: 43 to 128 bytes, each of them unreserved.
pub record IsVerifier (verifier : String) : Type 0 where
  pub long : 43 ≤ length (as_bytes verifier)
  pub short : length (as_bytes verifier) ≤ 128
  pub allowed : All (λ (b : ℕ). In b (as_bytes unreserved)) (as_bytes verifier)

any-In : (b : ℕ) (bs : List ℕ) → (any (nat_beq b) bs ≡ true) ↔ In b bs
unfolding any
any-In b [] = (λ h. cc, λ i. absurd i)
any-In b (x ∷ bs) = (
  λ h. elim (Bool-cases (nat_beq b x)) [
    | inl hit ↦ inl (sym ((nat_beq_iff b x).0 hit))
    | inr miss ↦ inr ((any-In b bs).0 (ground arith))
  ],
  λ i. elim i [
    | inl e ↦ ground (arith, nat_beq_iff b x)
    | inr m ↦ ground (arith, (any-In b bs).1 m)
  ],
)

all-In :
    (set bs : List ℕ) → (all (λ b. any (nat_beq b) set) bs ≡ true) ↔ All (λ (b : ℕ). In b set) bs
unfolding all
all-In set [] = (λ h. tt, λ i. refl)
all-In set (b ∷ bs) = (
  λ h. ((any-In b set).0 (ground arith), (all-In set bs).0 (ground arith)),
  λ (i, is). ground (arith, (any-In b set).1 i, (all-In set bs).1 is),
)

-- A verifier passes the validation exactly when it has 43 to 128 bytes and each is unreserved.
pub validate_code_verifier_iff :
    (verifier : String) → (validate_code_verifier verifier ≡ ok tt) ↔ IsVerifier verifier
unfolding validate_code_verifier
validate_code_verifier_iff verifier = (
  λ h. record {
    long = ground (arith, lt→ltb (length (as_bytes verifier)) 43);
    short = ground (arith, lt→ltb 128 (length (as_bytes verifier)));
    allowed = (all-In (as_bytes unreserved) (as_bytes verifier)).0 (ground arith);
  },
  λ v. ground (
    arith,
    v.long,
    v.short,
    (all-In (as_bytes unreserved) (as_bytes verifier)).1 v.allowed,
    ltb→lt (length (as_bytes verifier)) 43,
    ltb→lt 128 (length (as_bytes verifier)),
  ),
)

s256-not_plain :
    (method : String)
    → eq_ignore_ascii_case method "S256" ≡ true
    → eq_ignore_ascii_case method "plain" ≡ false
unfolding eq_ignore_ascii_case bytes_eq to_ascii_lowercase as_bytes
s256-not_plain method h = elim (Bool-cases (eq_ignore_ascii_case method "plain")) [
  | inr other ↦ other
  | inl plain ↦
      let lower : List ℕ = map to_ascii_lowercase (as_bytes method) in
      let same = bytes_eq_sound lower (map to_ascii_lowercase (as_bytes "S256")) h in
      let clash : bytes_eq (map to_ascii_lowercase (as_bytes "S256"))
            (map to_ascii_lowercase (as_bytes "plain"))
          ≡ true =
        subst (λ (bs : List ℕ). bytes_eq bs (map to_ascii_lowercase (as_bytes "plain")) ≡ true) same
          plain in
      cc
]

module _ (sha256 : List ℕ → List ℕ) (encode : List ℕ → String) where
  -- A verifier is accepted exactly when the method is S256 in any case, the verifier is valid, and
  -- the challenge has the bytes of the encoded hash of the verifier.
  pub verify_code-IsVerifier_iff :
      (method verifier challenge : String)
      → (verify_code_verifier_against_challenge sha256 encode method verifier challenge ≡ ok tt) ↔ (
          (eq_ignore_ascii_case method "S256" ≡ true)
          × IsVerifier verifier
          × (as_bytes (encode (sha256 (as_bytes verifier))) ≡ as_bytes challenge))
  unfolding verify_code_verifier_against_challenge derive_challenge_s256
  verify_code-IsVerifier_iff method verifier challenge = (
    λ h. elim (Bool-cases (eq_ignore_ascii_case method "plain")) [
      | inl plain ↦ ground arith
      | inr other ↦ elim (Bool-cases (eq_ignore_ascii_case method "S256")) [
        | inr unsupported ↦ ground arith
        | inl s256 ↦
            let (derived, made, same) =
              >>=-eq-ok (derive_challenge_s256 sha256 encode verifier)
                (λ derived.
                  if not (constant_time_eq_str derived challenge)
                  then err verifier_mismatch
                  else ok tt)
                tt (ground arith) in
            let (u, valid, it) =
              >>=-eq-ok (validate_code_verifier verifier)
                (λ u. ok (encode (sha256 (as_bytes verifier)))) derived made in
            let equal : constant_time_eq_str derived challenge ≡ true = ground arith in
            let derived_from : derived ≡ encode (sha256 (as_bytes verifier)) = ground arith in
            (
              s256,
              (validate_code_verifier_iff verifier).0 valid,
              ap as_bytes (sym derived_from) ∙ (constant_time_eq_str_iff derived challenge).0 equal,
            )
      ]
    ],
    λ (s256, v, same). ground (
      arith,
      s256-not_plain method s256,
      (validate_code_verifier_iff verifier).1 v,
      (constant_time_eq_str_iff (encode (sha256 (as_bytes verifier))) challenge).1 same,
    ),
  )
