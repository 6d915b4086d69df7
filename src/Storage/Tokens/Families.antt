-- ===== src/Storage/Tokens/Families.antt =====
-- The family index of refresh tokens, crates/geonosis-storage/src/memory.rs.
use geonosis.Base.{
  ℕ, String, true, some, List, [], ◌∷◌, ◌++◌, Map, lookup, remove, ◌≡◌, refl, ◌≢◌, inl, inr, arith,
  nat_eq, string_eq, ◌==◌, if◌then◌else◌, lookup-insert, lookup-remove, In, In-append,
  In-append_left, In-append_right, Bool-cases, Option-cases, nat_beq_iff, subst, sym, ap, ◌∙◌,
}
use text.Mathlib.TextEquality.{eq_iff}
use geonosis.Core.Token.{RefreshToken}
use geonosis.Storage.Tokens.{
  Tables, empty, family_of, save_refresh_token, mark_refresh_used, remove_all, revoke_token_family,
}

-- Every stored token is stored under its id, and its family lists it.
pub record IsIndexed (t : Tables) : Type 0 where
  pub listed :
      (id : String) (tok : RefreshToken)
      → lookup id t.refresh_tokens ≡ some tok
      → (tok.id ≡ id) × In id (family_of t tok.family_id)

pub empty-IsIndexed : IsIndexed empty
unfolding lookup
empty-IsIndexed = record { listed = λ id tok h. cc }

-- What is left after a family's ids are removed.
pub lookup-remove_all :
    (ids : List String) (m : Map String RefreshToken) (k : String) (tok : RefreshToken)
    → lookup k (remove_all ids m) ≡ some tok
    → (lookup k m ≡ some tok) × ¬ In k ids
unfolding remove_all
lookup-remove_all [] m k tok h = (h, λ i. i)
lookup-remove_all (id ∷ ids) m k tok h =
    let (kept, out) = lookup-remove_all ids (remove id m) k tok h in
    (
      ground (arith, lookup-remove id k m),
      λ i. elim i [ inl same ↦ ground (arith, lookup-remove id k m, eq_iff id k) | inr j ↦ out j ],
    )

pub lookup-remove_all_other :
    (ids : List String) (m : Map String RefreshToken) (k : String)
    → ¬ In k ids
    → lookup k (remove_all ids m) ≡ lookup k m
unfolding remove_all
lookup-remove_all_other [] m k out = refl
lookup-remove_all_other (id ∷ ids) m k out =
    lookup-remove_all_other ids (remove id m) k (λ i. out (inr i))
    ∙ ground (arith, lookup-remove id k m, eq_iff id k, λ (e : id ≡ k). out (inl e))

pub family_of-save_refresh_token :
    (token : RefreshToken) (t : Tables) (family : ℕ)
    → family_of (save_refresh_token token t) family ≡ (
        if token.family_id == family
        then family_of t token.family_id ++ token.id ∷ []
        else family_of t family)
unfolding save_refresh_token
family_of-save_refresh_token token t family = ground (
  arith,
  lookup-insert token.family_id family (family_of t token.family_id ++ token.id ∷ []) t.families,
)

pub lookup-save_refresh_token :
    (token : RefreshToken) (t : Tables) (id : String)
    → lookup id (save_refresh_token token t).refresh_tokens
      ≡ (if token.id == id then some token else lookup id t.refresh_tokens)
unfolding save_refresh_token
lookup-save_refresh_token token t id = lookup-insert token.id id token t.refresh_tokens

pub family_of-revoke_token_family :
    (family : ℕ) (t : Tables) (other : ℕ)
    → family_of (revoke_token_family family t) other
      ≡ (if family == other then [] else family_of t other)
unfolding revoke_token_family
family_of-revoke_token_family family t other =
    ground (arith, lookup-remove family other t.families, nat_beq_iff family other)

-- Saving a token keeps what a family lists.
save_refresh_token-In :
    (token : RefreshToken) (t : Tables) (family : ℕ) (id : String)
    → In id (family_of t family)
    → In id (family_of (save_refresh_token token t) family)
save_refresh_token-In token t family id i = elim (Bool-cases (token.family_id == family)) [
  | inl hit ↦
      subst (λ (ids : List String). In id ids)
        (sym (ground (arith, family_of-save_refresh_token token t family)))
        (In-append_left id (family_of t token.family_id) (token.id ∷ []) (
          subst (λ (f : ℕ). In id (family_of t f))
            (sym ((nat_beq_iff token.family_id family).0 hit)) i))
  | inr miss ↦
      subst (λ (ids : List String). In id ids)
        (sym (ground (arith, family_of-save_refresh_token token t family))) i
]

save_refresh_token-In_self :
    (token : RefreshToken) (t : Tables)
    → In token.id (family_of (save_refresh_token token t) token.family_id)
save_refresh_token-In_self token t =
    subst (λ (ids : List String). In token.id ids)
      (sym (
        ground (
          arith,
          family_of-save_refresh_token token t token.family_id,
          nat_beq_iff token.family_id token.family_id,
        )))
      (In-append_right token.id (family_of t token.family_id) (token.id ∷ []) (inl refl))

-- Saving a token adds no other id to a family.
pub save_refresh_token-In_other :
    (token : RefreshToken) (t : Tables) (family : ℕ) (id : String)
    → In id (family_of (save_refresh_token token t) family)
    → token.id ≢ id
    → In id (family_of t family)
save_refresh_token-In_other token t family id i other =
    elim (Bool-cases (token.family_id == family)) [
      | inl hit ↦
          let now : family_of (save_refresh_token token t) family
              ≡ family_of t token.family_id ++ token.id ∷ [] =
            ground (arith, family_of-save_refresh_token token t family) in
          elim (In-append id (family_of t token.family_id) (token.id ∷ [])
            (subst (λ (ids : List String). In id ids) now i)) [
              | inl old ↦
                  subst (λ (f : ℕ). In id (family_of t f))
                    ((nat_beq_iff token.family_id family).0 hit) old
              | inr (inl same) ↦ absurd (other same)
              | inr (inr none_) ↦ absurd none_
            ]
      | inr miss ↦
          let kept : family_of (save_refresh_token token t) family ≡ family_of t family =
            ground (arith, family_of-save_refresh_token token t family) in
          subst (λ (ids : List String). In id ids) kept i
    ]

pub save_refresh_token-IsIndexed :
    (token : RefreshToken) (t : Tables) → IsIndexed t → IsIndexed (save_refresh_token token t)
save_refresh_token-IsIndexed token t v = record {
  listed = λ id tok h. elim (Bool-cases (token.id == id)) [
    | inl hit ↦
        let same : token.id ≡ id = (eq_iff token.id id).0 hit in
        let it : token ≡ tok = ground (arith, lookup-save_refresh_token token t id) in
        subst
          (λ (k : RefreshToken).
            (k.id ≡ id) × In id (family_of (save_refresh_token token t) k.family_id))
          it
          (
            same,
            subst (λ (k : String). In k (family_of (save_refresh_token token t) token.family_id))
                same (save_refresh_token-In_self token t),
          )
    | inr miss ↦
        let (same, i) = v.listed id tok (ground (arith, lookup-save_refresh_token token t id)) in
        (same, save_refresh_token-In token t tok.family_id id i)
  ];
}

pub lookup-mark_refresh_used :
    (id : String) (t : Tables) (k : String) (tok : RefreshToken)
    → lookup k (mark_refresh_used id t).0.refresh_tokens ≡ some tok
    → (old : RefreshToken) × (lookup k t.refresh_tokens ≡ some old)
      × (old.id ≡ tok.id)
      × (old.family_id ≡ tok.family_id)
unfolding mark_refresh_used
lookup-mark_refresh_used id t k tok h = elim (Option-cases (lookup id t.refresh_tokens)) [
  | inl missing ↦ (tok, ground arith, refl, refl)
  | inr (old, found) ↦
      let now : (if id == k then some (record old { used = true }) else lookup k t.refresh_tokens)
          ≡ some tok =
        sym (lookup-insert id k (record old { used = true }) t.refresh_tokens) ∙ ground arith in
      elim (Bool-cases (id == k)) [
        | inl hit ↦
            let it : record old { used = true } ≡ tok = ground arith in
            (
              old,
              subst (λ (i : String). lookup i t.refresh_tokens ≡ some old) ((eq_iff id k).0 hit)
                  found,
              ap (λ (x : RefreshToken). x.id) it,
              ap (λ (x : RefreshToken). x.family_id) it,
            )
        | inr miss ↦ (tok, ground arith, refl, refl)
      ]
]

pub family_of-mark_refresh_used :
    (id : String) (t : Tables) (family : ℕ)
    → family_of (mark_refresh_used id t).0 family ≡ family_of t family
unfolding mark_refresh_used
family_of-mark_refresh_used id t family = ground arith

pub mark_refresh_used-IsIndexed :
    (id : String) (t : Tables) → IsIndexed t → IsIndexed (mark_refresh_used id t).0
mark_refresh_used-IsIndexed id t v = record {
  listed = λ k tok h.
      let (old, was, same, fam) = lookup-mark_refresh_used id t k tok h in
      let (kept, i) = v.listed k old was in
      (
        sym same ∙ kept,
        subst (λ (ids : List String). In k ids)
            (ap (family_of t) fam ∙ sym (family_of-mark_refresh_used id t tok.family_id)) i,
      );
}

lookup-revoke_token_family :
    (family : ℕ) (t : Tables) (k : String) (tok : RefreshToken)
    → lookup k (revoke_token_family family t).refresh_tokens ≡ some tok
    → (lookup k t.refresh_tokens ≡ some tok) × ¬ In k (family_of t family)
unfolding revoke_token_family
lookup-revoke_token_family family t k tok h = elim (Option-cases (lookup family t.families)) [
  | inl missing ↦
      let bare : family_of t family ≡ [] = ground arith in
      (ground arith, λ i. subst (λ (ids : List String). In k ids) bare i)
  | inr (ids, found) ↦
      let (was, out) = lookup-remove_all ids t.refresh_tokens k tok (ground arith) in
      (was, λ i. out (subst (λ (js : List String). In k js) (ground arith) i))
]

-- A token that survives the revocation of a family is of another family.
pub revoke_token_family-survivor :
    (family : ℕ) (t : Tables)
    → IsIndexed t
    → (k : String) (tok : RefreshToken)
    → lookup k (revoke_token_family family t).refresh_tokens ≡ some tok
    → (lookup k t.refresh_tokens ≡ some tok) × (tok.family_id ≢ family)
revoke_token_family-survivor family t v k tok h =
    let (was, out) = lookup-revoke_token_family family t k tok h in
    (was, λ e. out (subst (λ (f : ℕ). In k (family_of t f)) e (v.listed k tok was).1))

pub revoke_token_family-IsIndexed :
    (family : ℕ) (t : Tables) → IsIndexed t → IsIndexed (revoke_token_family family t)
revoke_token_family-IsIndexed family t v = record {
  listed = λ k tok h.
      let (was, other) = revoke_token_family-survivor family t v k tok h in
      let (same, i) = v.listed k tok was in
      (
        same,
        subst (λ (ids : List String). In k ids)
            (sym (
              ground (
                arith,
                family_of-revoke_token_family family t tok.family_id,
                nat_beq_iff family tok.family_id,
                λ (e : family ≡ tok.family_id). other (sym e),
              )))
            i,
      );
}
