-- ===== src/Storage/Tokens/Owners.antt =====
-- Which family a refresh token belongs to, crates/geonosis-storage/src/memory.rs.
use geonosis.Base.{
  ℕ, String, some, List, [], lookup, ◌≡◌, ◌≢◌, inl, inr, arith, nat_eq, string_eq, ◌==◌, In,
  Bool-cases, Option-cases, nat_beq_iff, subst, sym, ap, ◌∙◌,
}
use text.Mathlib.TextEquality.{eq_iff}
use geonosis.Core.Token.{RefreshToken}
use geonosis.Storage.Tokens.{
  Tables, empty, family_of, save_refresh_token, mark_refresh_used, revoke_token_family,
}
use geonosis.Storage.Tokens.Families.{
  IsIndexed, lookup-remove_all_other, family_of-save_refresh_token, lookup-save_refresh_token,
  family_of-revoke_token_family, save_refresh_token-In_other, lookup-mark_refresh_used,
  family_of-mark_refresh_used, revoke_token_family-survivor,
}

-- A stored token that a family lists is of that family.
pub record IsOwned (t : Tables) : Type 0 where
  pub owned :
      (family : ℕ) (id : String) (tok : RefreshToken)
      → In id (family_of t family)
      → lookup id t.refresh_tokens ≡ some tok
      → tok.family_id ≡ family

pub empty-IsOwned : IsOwned empty
unfolding lookup
empty-IsOwned = record { owned = λ family id tok i h. absurd i }

-- The id of a token that was never saved: no family lists it.
abbrev pub IsFresh : String → Tables → Type 0
IsFresh id t = (family : ℕ) → ¬ In id (family_of t family)

pub save_refresh_token-IsOwned :
    (token : RefreshToken) (t : Tables)
    → IsFresh token.id t
    → IsOwned t
    → IsOwned (save_refresh_token token t)
save_refresh_token-IsOwned token t fresh v = record {
  owned = λ family id tok i h. elim (Bool-cases (token.id == id)) [
    | inl hit ↦
        let same : token.id ≡ id = (eq_iff token.id id).0 hit in
        let it : token ≡ tok = ground (arith, lookup-save_refresh_token token t id) in
        elim (Bool-cases (token.family_id == family)) [
          | inl mine ↦
              sym (ap (λ (x : RefreshToken). x.family_id) it)
              ∙ (nat_beq_iff token.family_id family).0 mine
          | inr other ↦
              let kept : family_of (save_refresh_token token t) family ≡ family_of t family =
                ground (arith, family_of-save_refresh_token token t family) in
              absurd (
                fresh family (
                  subst (λ (k : String). In k (family_of t family)) (sym same)
                    (subst (λ (ids : List String). In id ids) kept i)))
        ]
    | inr miss ↦
        v.owned family id tok
          (save_refresh_token-In_other token t family id i
            (λ e. ground (arith, eq_iff token.id id)))
          (ground (arith, lookup-save_refresh_token token t id))
  ];
}

pub mark_refresh_used-IsOwned :
    (id : String) (t : Tables) → IsOwned t → IsOwned (mark_refresh_used id t).0
mark_refresh_used-IsOwned id t v = record {
  owned = λ family k tok i h.
      let (old, was, same, fam) = lookup-mark_refresh_used id t k tok h in
      sym fam
      ∙ v.owned family k old
          (subst (λ (ids : List String). In k ids) (family_of-mark_refresh_used id t family) i) was;
}

pub revoke_token_family-IsOwned :
    (family : ℕ) (t : Tables) → IsIndexed t → IsOwned t → IsOwned (revoke_token_family family t)
revoke_token_family-IsOwned family t x v = record {
  owned = λ other k tok i h.
      let (was, out) = revoke_token_family-survivor family t x k tok h in
      elim (Bool-cases (family == other)) [
        | inl gone ↦
            let bare : family_of (revoke_token_family family t) other ≡ [] =
              ground (arith, family_of-revoke_token_family family t other) in
            absurd (subst (λ (ids : List String). In k ids) bare i)
        | inr kept ↦
            let same : family_of (revoke_token_family family t) other ≡ family_of t other =
              ground (arith, family_of-revoke_token_family family t other) in
            v.owned other k tok (subst (λ (ids : List String). In k ids) same i) was
      ];
}

-- A token of another family survives the revocation of a family.
pub revoke_token_family-other :
    (family : ℕ) (t : Tables)
    → IsOwned t
    → (k : String) (tok : RefreshToken) → lookup k t.refresh_tokens ≡ some tok
    → tok.family_id ≢ family
    → lookup k (revoke_token_family family t).refresh_tokens ≡ some tok
unfolding revoke_token_family
revoke_token_family-other family t v k tok h other =
    elim (Option-cases (lookup family t.families)) [
      | inl missing ↦ ground arith
      | inr (ids, found) ↦
          let listed : family_of t family ≡ ids = ground arith in
          let kept = lookup-remove_all_other ids t.refresh_tokens k (λ i.
            other
              (v.owned family k tok (subst (λ (js : List String). In k js) (sym listed) i) h)) in
          ground arith
    ]
