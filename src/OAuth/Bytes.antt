-- ===== src/OAuth/Bytes.antt =====
-- The bytes of a string and the operations on `u8` that crates/geonosis-protocol-oauth/src/pkce.rs
-- uses. `as_bytes` is the UTF-8 encoding.
use Prim.Native.Char.{code}
use geonosis.Base.{
  ℕ, zero, suc, ◌+◌, ◌*◌, ◌/◌, ◌%◌, String, Bool, true, false, ◌&&◌, List, [], ◌∷◌, ◌++◌, map,
  if◌then◌else◌, ltb, leb, nat_beq, nat_beq_iff, ◌≡◌, refl, arith, subst, All, All-append,
  Bool-cases, inl, inr, ltb→lt,
}

utf8 : ℕ → List ℕ
utf8 c =
    if ltb c 128
    then c ∷ []
    else if ltb c 2048
    then (192 + (c / 64) % 32) ∷ (128 + c % 64) ∷ []
    else if ltb c 65536
    then (224 + (c / 4096) % 16) ∷ (128 + (c / 64) % 64) ∷ (128 + c % 64) ∷ []
    else (240 + (c / 262144) % 8)
      ∷ (128 + (c / 4096) % 64)
      ∷ (128 + (c / 64) % 64)
      ∷ (128 + c % 64)
      ∷ []

unfoldable pub as_bytes : String → List ℕ
unfolding utf8
as_bytes String.[] = []
as_bytes (String.◌∷◌ c s) = utf8 (code c) ++ as_bytes s

-- `x ^ y` on integers of `w` bits
unfoldable pub bit_xor : ℕ → ℕ → ℕ → ℕ
bit_xor zero a b = 0
bit_xor (suc w) a b = (a + b) % 2 + 2 * bit_xor w (a / 2) (b / 2)

-- `x | y` on integers of `w` bits
unfoldable pub bit_or : ℕ → ℕ → ℕ → ℕ
bit_or zero a b = 0
bit_or (suc w) a b = (a % 2 + b % 2 + 1) / 2 + 2 * bit_or w (a / 2) (b / 2)

unfoldable pub bytes_eq : List ℕ → List ℕ → Bool
bytes_eq [] [] = true
bytes_eq [] (y ∷ ys) = false
bytes_eq (x ∷ xs) [] = false
bytes_eq (x ∷ xs) (y ∷ ys) = nat_beq x y && bytes_eq xs ys

unfoldable pub to_ascii_lowercase : ℕ → ℕ
to_ascii_lowercase b = if leb 65 b && leb b 90 then b + 32 else b

unfoldable pub eq_ignore_ascii_case : String → String → Bool
eq_ignore_ascii_case a b =
    bytes_eq (map to_ascii_lowercase (as_bytes a)) (map to_ascii_lowercase (as_bytes b))

pub bytes_eq_sound : (xs ys : List ℕ) → bytes_eq xs ys ≡ true → xs ≡ ys
unfolding bytes_eq
bytes_eq_sound [] [] h = refl
bytes_eq_sound [] (y ∷ ys) h = cc
bytes_eq_sound (x ∷ xs) [] h = cc
bytes_eq_sound (x ∷ xs) (y ∷ ys) h = ground (arith, nat_beq_iff x y, bytes_eq_sound xs ys)

-- The number has at most `w` bits.
abbrev pub Fits : ℕ → ℕ → Type 0
Fits zero a = a ≡ 0
Fits (suc w) a = Fits w (a / 2)

pub Fits-0 : (w : ℕ) → Fits w 0
Fits-0 zero = refl
Fits-0 (suc w) = Fits-0 w

pub bit_xor-zero : (w a b : ℕ) → Fits w a → Fits w b → bit_xor w a b ≡ 0 → a ≡ b
unfolding bit_xor
bit_xor-zero zero a b fa fb h = omega arith
bit_xor-zero (suc w) a b fa fb h =
    let same : a / 2 ≡ b / 2 = bit_xor-zero w (a / 2) (b / 2) fa fb (omega arith) in omega arith

pub bit_xor_self : (w a : ℕ) → bit_xor w a a ≡ 0
unfolding bit_xor
bit_xor_self zero a = refl
bit_xor_self (suc w) a = omega (arith, bit_xor_self w (a / 2))

pub bit_or-zero : (w a b : ℕ) → Fits w a → Fits w b → bit_or w a b ≡ 0 → (a ≡ 0) × (b ≡ 0)
unfolding bit_or
bit_or-zero zero a b fa fb h = (fa, fb)
bit_or-zero (suc w) a b fa fb h =
    let (ea, eb) = bit_or-zero w (a / 2) (b / 2) fa fb (omega arith) in (omega arith, omega arith)

pub bit_or-0 : (w : ℕ) → bit_or w 0 0 ≡ 0
unfolding bit_or
bit_or-0 zero = refl
bit_or-0 (suc w) = omega (arith, bit_or-0 w)

pub bit_xor-Fits : (w a b : ℕ) → Fits w (bit_xor w a b)
unfolding bit_xor
bit_xor-Fits zero a b = refl
bit_xor-Fits (suc w) a b =
    let half : bit_xor w (a / 2) (b / 2) ≡ ((a + b) % 2 + 2 * bit_xor w (a / 2) (b / 2)) / 2 =
      omega arith in
    subst (Fits w) half (bit_xor-Fits w (a / 2) (b / 2))

pub bit_or-Fits : (w a b : ℕ) → Fits w (bit_or w a b)
unfolding bit_or
bit_or-Fits zero a b = refl
bit_or-Fits (suc w) a b =
    let half : bit_or w (a / 2) (b / 2)
        ≡ ((a % 2 + b % 2 + 1) / 2 + 2 * bit_or w (a / 2) (b / 2)) / 2 =
      omega arith in
    subst (Fits w) half (bit_or-Fits w (a / 2) (b / 2))

-- Every byte of a string is a `u8`.
utf8-Fits : (c : ℕ) → All (Fits 8) (utf8 c)
unfolding utf8
utf8-Fits c = elim (Bool-cases (ltb c 128)) [
  | inl one ↦ rw (one) (omega (arith, ltb→lt c 128), tt)
  | inr more ↦ rw (more) (elim (Bool-cases (ltb c 2048)) [
    | inl two ↦ rw (two) (omega arith, (omega arith, tt))
    | inr longer ↦ rw (longer) (elim (Bool-cases (ltb c 65536)) [
      | inl three ↦ rw (three) (omega arith, (omega arith, (omega arith, tt)))
      | inr four ↦ rw (four) (omega arith, (omega arith, (omega arith, (omega arith, tt))))
    ])
  ])
]

pub as_bytes-Fits : (s : String) → All (Fits 8) (as_bytes s)
unfolding as_bytes
as_bytes-Fits String.[] = tt
as_bytes-Fits (String.◌∷◌ c s) =
    All-append (Fits 8) (utf8 (code c)) (as_bytes s) (utf8-Fits (code c)) (as_bytes-Fits s)
