-- ===== src/Core/RedirectUri.antt =====
-- crates/geonosis-core/src/client.rs, `RedirectUri`: which redirect URIs of a request a registered
-- one covers. The strings are compared byte by byte, so they are lists of bytes.
pub mod Covered
use geonosis.Base.{
  ℕ, zero, suc, ◌-◌, Bool, true, false, ◌&&◌, ◌||◌, Option, none, some, List, [], ◌∷◌, ◌++◌,
  if◌then◌else◌, nat_beq, nat_beq_iff, ◌≡◌, ◌↔◌, ◌⊎◌, inl, inr, refl, sym, ap, ◌∙◌, subst, arith,
  Bool-cases, Option-cases,
}

pub record RedirectUri : Type 0 where
  pub uri : List ℕ
  pub wildcard_path : Bool

-- `==` on strings
unfoldable pub same_bytes : List ℕ → List ℕ → Bool
same_bytes [] [] = true
same_bytes (x ∷ xs) (y ∷ ys) = nat_beq x y && same_bytes xs ys
same_bytes [] (y ∷ ys) = false
same_bytes (x ∷ xs) [] = false

-- `strip_suffix("/*")`
unfoldable pub strip_wildcard : List ℕ → Option (List ℕ)
unfolding same_bytes
strip_wildcard [] = none
strip_wildcard (x ∷ xs) =
    let rest = strip_wildcard xs in
    if same_bytes (x ∷ xs) (47 ∷ 42 ∷ [])
    then some []
    else elim rest [ none ↦ none | some prefix ↦ some (x ∷ prefix) ]

-- `candidate.starts_with(prefix)`, with what follows the prefix.
unfoldable pub strip_prefix : List ℕ → List ℕ → Option (List ℕ)
strip_prefix [] candidate = some candidate
strip_prefix (p ∷ prefix) [] = none
strip_prefix (p ∷ prefix) (x ∷ candidate) =
    if nat_beq p x then strip_prefix prefix candidate else none

-- The candidate ends at the prefix, or goes on with a slash.
abbrev pub ends_or_descends : List ℕ → Bool
ends_or_descends [] = true
ends_or_descends (x ∷ rest) = nat_beq x 47

-- `RedirectUri::matches`
unfoldable pub matches : RedirectUri → List ℕ → Bool
matches self candidate =
    if same_bytes self.uri candidate
    then true
    else if self.wildcard_path
    then (elim (strip_wildcard self.uri) [
      | none ↦ false
      | some prefix ↦ elim (strip_prefix prefix candidate) [
        | none ↦ false
        | some rest ↦ ends_or_descends rest
      ]
    ])
    else false
