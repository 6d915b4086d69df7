-- ===== src/Core/RedirectUri/Covered.antt =====
-- What a registered redirect URI covers, crates/geonosis-core/src/client.rs.
use geonosis.Base.{
  ℕ, true, false, some, List, [], ◌∷◌, ◌++◌, nat_beq_iff, ◌≡◌, ◌↔◌, ◌⊎◌, inl, inr, refl, sym, ap,
  ◌∙◌, arith, Bool-cases, Option-cases,
}
use geonosis.Core.RedirectUri.{
  RedirectUri, same_bytes, strip_wildcard, strip_prefix, ends_or_descends, matches,
}

same_bytes_iff : (xs ys : List ℕ) → (same_bytes xs ys ≡ true) ↔ (xs ≡ ys)
unfolding same_bytes
same_bytes_iff [] [] = (λ h. refl, λ h. refl)
same_bytes_iff (x ∷ xs) (y ∷ ys) = ground (arith, nat_beq_iff x y, same_bytes_iff xs ys)
same_bytes_iff [] (y ∷ ys) = (λ h. cc, λ h. cc)
same_bytes_iff (x ∷ xs) [] = (λ h. cc, λ h. cc)

strip_prefix-some :
    (prefix candidate rest : List ℕ)
    → (strip_prefix prefix candidate ≡ some rest) ↔ (candidate ≡ prefix ++ rest)
unfolding strip_prefix
strip_prefix-some [] candidate rest = (λ h. cc, λ h. cc)
strip_prefix-some (p ∷ prefix) [] rest = (λ h. cc, λ h. cc)
strip_prefix-some (p ∷ prefix) (x ∷ candidate) rest =
    ground (arith, nat_beq_iff p x, strip_prefix-some prefix candidate rest)

strip_wildcard-some :
    (uri prefix : List ℕ) → strip_wildcard uri ≡ some prefix → uri ≡ prefix ++ 47 ∷ 42 ∷ []
unfolding strip_wildcard
strip_wildcard-some [] prefix h = cc
strip_wildcard-some (x ∷ xs) prefix h = elim (Bool-cases (same_bytes (x ∷ xs) (47 ∷ 42 ∷ []))) [
  | inl end ↦
      let it : [] ≡ prefix = ground arith in
      (same_bytes_iff (x ∷ xs) (47 ∷ 42 ∷ [])).0 end ∙ ap (λ (p : List ℕ). p ++ 47 ∷ 42 ∷ []) it
  | inr more ↦ elim (Option-cases (strip_wildcard xs)) [
    | inl none_ ↦ ground arith
    | inr (below, found) ↦
        let it : x ∷ below ≡ prefix = ground arith in
        ap (λ (t : List ℕ). x ∷ t) (strip_wildcard-some xs below found)
        ∙ ap (λ (p : List ℕ). p ++ 47 ∷ 42 ∷ []) it
  ]
]

longer :
    (x : ℕ) (prefix : List ℕ) → same_bytes (x ∷ (prefix ++ 47 ∷ 42 ∷ [])) (47 ∷ 42 ∷ []) ≡ false
unfolding same_bytes
longer x [] = ground arith
longer x (y ∷ []) = ground arith
longer x (y ∷ z ∷ prefix) = ground arith

strip_wildcard-append : (prefix : List ℕ) → strip_wildcard (prefix ++ 47 ∷ 42 ∷ []) ≡ some prefix
unfolding strip_wildcard same_bytes
strip_wildcard-append [] = refl
strip_wildcard-append (x ∷ prefix) = ground (arith, longer x prefix, strip_wildcard-append prefix)

-- A candidate under the wildcard: the registered URI without its `/*`, and nothing more or a slash.
abbrev pub IsUnder : RedirectUri → List ℕ → Type 0
IsUnder self candidate =
    (self.wildcard_path ≡ true)
    × (prefix : List ℕ) × (self.uri ≡ prefix ++ 47 ∷ 42 ∷ [])
    × ((candidate ≡ prefix) ⊎ ((rest : List ℕ) × (candidate ≡ prefix ++ 47 ∷ rest)))

append-nil : (xs : List ℕ) → xs ++ [] ≡ xs
append-nil [] = refl
append-nil (x ∷ xs) = ap (λ (t : List ℕ). x ∷ t) (append-nil xs)

descends :
    (prefix candidate rest : List ℕ)
    → candidate ≡ prefix ++ rest
    → ends_or_descends rest ≡ true
    → (candidate ≡ prefix) ⊎ ((tail : List ℕ) × (candidate ≡ prefix ++ 47 ∷ tail))
descends prefix candidate [] e h = inl (e ∙ append-nil prefix)
descends prefix candidate (x ∷ rest) e h =
    inr (rest, e ∙ ap (λ (y : ℕ). prefix ++ y ∷ rest) ((nat_beq_iff x 47).0 h))

matches-cases :
    (self : RedirectUri) (candidate : List ℕ)
    → matches self candidate ≡ true
    → (self.uri ≡ candidate) ⊎ IsUnder self candidate
unfolding matches
matches-cases self candidate h = elim (Bool-cases (same_bytes self.uri candidate)) [
  | inl same ↦ inl ((same_bytes_iff self.uri candidate).0 same)
  | inr other ↦ elim (Bool-cases self.wildcard_path) [
    | inr exact ↦ ground arith
    | inl wild ↦ elim (Option-cases (strip_wildcard self.uri)) [
      | inl bare ↦ ground arith
      | inr (prefix, stripped) ↦ elim (Option-cases (strip_prefix prefix candidate)) [
        | inl apart ↦ ground arith
        | inr (rest, under) ↦ inr (
          wild,
          prefix,
          strip_wildcard-some self.uri prefix stripped,
          descends prefix candidate rest ((strip_prefix-some prefix candidate rest).0 under)
              (ground arith),
        )
      ]
    ]
  ]
]

under-matches :
    (self : RedirectUri) (candidate prefix rest : List ℕ)
    → self.wildcard_path ≡ true
    → self.uri ≡ prefix ++ 47 ∷ 42 ∷ []
    → candidate ≡ prefix ++ rest
    → ends_or_descends rest ≡ true
    → matches self candidate ≡ true
unfolding matches
under-matches self candidate prefix rest wild uri c ends =
    let stripped : strip_wildcard self.uri ≡ some prefix =
      ap strip_wildcard uri ∙ strip_wildcard-append prefix in
    let under = (strip_prefix-some prefix candidate rest).1 c in
    elim (Bool-cases (same_bytes self.uri candidate)) [
      | inl same ↦ ground arith
      | inr other ↦ rw (other, matches, wild, stripped, under) ends
    ]

-- A registered redirect URI covers exactly itself and, if its path is a wildcard and it ends with
-- `/*`, the URI without that ending, alone or followed by a slash and anything.
pub matches_iff :
    (self : RedirectUri) (candidate : List ℕ)
    → (matches self candidate ≡ true) ↔ ((self.uri ≡ candidate) ⊎ IsUnder self candidate)
unfolding matches
matches_iff self candidate = (
  matches-cases self candidate,
  λ d. elim d [
    | inl same ↦ ground (arith, same_bytes_iff self.uri candidate)
    | inr (wild, prefix, uri, inl c) ↦
        under-matches self candidate prefix [] wild uri (c ∙ sym (append-nil prefix)) refl
    | inr (wild, prefix, uri, inr (rest, c)) ↦
        under-matches self candidate prefix (47 ∷ rest) wild uri c refl
  ],
)
