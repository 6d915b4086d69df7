-- ===== src/OAuth/Refresh/Reuse.antt =====
-- Reuse detection of crates/geonosis-protocol-oauth/src/refresh.rs.
use geonosis.Base.{
  ℕ, String, true, false, none, some, List, Result, ok, err, lookup, insert, ◌≡◌, refl, ◌≢◌, ◌↔◌,
  inl, inr, ◌≤◌, arith, nat_eq, string_eq, if◌then◌else◌, lookup-insert_self, Bool-cases,
  Option-cases, subst, sym, ap, ◌∙◌, ltb, ltb→lt, lt→ltb, le→ltb,
}
use text.Mathlib.TextEquality.{eq_iff}
use geonosis.Core.Token.{RefreshToken}
use geonosis.Storage.Tokens.{
  Tables, save_refresh_token, get_refresh_token, mark_refresh_used, revoke_token_family,
}
use geonosis.Storage.Tokens.Families.{
  IsIndexed, save_refresh_token-IsIndexed, mark_refresh_used-IsIndexed,
  revoke_token_family-survivor, lookup-save_refresh_token,
}
use geonosis.Storage.Tokens.Owners.{IsOwned, revoke_token_family-other}
use geonosis.OAuth.Refresh.{
  RefreshRotateError, not_found, expired, reuse, RefreshOutcome, validate_refresh,
  rotate_refresh_token,
}

-- The tables after the family of a token is burned: the tokens of the family are gone, and those of
-- other families are as they were.
pub record IsBurned (family : ℕ) (before after : Tables) : Type 0 where
  pub survivor :
      (k : String) (tok : RefreshToken)
      → (lookup k after.refresh_tokens ≡ some tok)
        ↔ ((lookup k before.refresh_tokens ≡ some tok) × (tok.family_id ≢ family))

-- No stored token is of the family.
abbrev pub IsWithout : ℕ → Tables → Type 0
IsWithout family t =
    (k : String) (tok : RefreshToken)
    → lookup k t.refresh_tokens ≡ some tok
    → tok.family_id ≢ family

pub revoke_token_family-IsBurned :
    (family : ℕ) (t : Tables)
    → IsIndexed t
    → IsOwned t
    → IsBurned family t (revoke_token_family family t)
revoke_token_family-IsBurned family t x v = record {
  survivor = λ k tok. (
    revoke_token_family-survivor family t x k tok,
    λ h. revoke_token_family-other family t v k tok h.0 h.1,
  );
}

mark_refresh_used-eq :
    (id : String) (t : Tables) (tok : RefreshToken)
    → lookup id t.refresh_tokens ≡ some tok
    → mark_refresh_used id t ≡ (
      record t { refresh_tokens = insert id (record tok { used = true }) t.refresh_tokens },
      ok tt,
    )
unfolding mark_refresh_used
mark_refresh_used-eq id t tok h = ground arith

pub rotate_refresh_token-eq :
    (prior replacement : RefreshToken) (t : Tables)
    → lookup prior.id t.refresh_tokens ≡ some prior
    → rotate_refresh_token prior replacement t
      ≡ (save_refresh_token replacement (mark_refresh_used prior.id t).0, ok tt)
unfolding rotate_refresh_token
rotate_refresh_token-eq prior replacement t h =
    ground (arith, mark_refresh_used-eq prior.id t prior h)

-- What is at the hash of a secret after the rotation of the token that is there.
rotate_refresh_token-lookup :
    (prior replacement : RefreshToken) (t : Tables)
    → lookup prior.id t.refresh_tokens ≡ some prior
    → prior.id ≢ replacement.id
    → lookup prior.id (rotate_refresh_token prior replacement t).0.refresh_tokens
      ≡ some (record prior { used = true })
rotate_refresh_token-lookup prior replacement t h other = ground (
  arith,
  rotate_refresh_token-eq prior replacement t h,
  mark_refresh_used-eq prior.id t prior h,
  lookup-save_refresh_token replacement (mark_refresh_used prior.id t).0 prior.id,
  lookup-insert_self prior.id (record prior { used = true }) t.refresh_tokens,
  eq_iff replacement.id prior.id,
)

rotate_refresh_token-replacement :
    (prior replacement : RefreshToken) (t : Tables)
    → lookup prior.id t.refresh_tokens ≡ some prior
    → lookup replacement.id (rotate_refresh_token prior replacement t).0.refresh_tokens
      ≡ some replacement
rotate_refresh_token-replacement prior replacement t h = ground (
  arith,
  rotate_refresh_token-eq prior replacement t h,
  lookup-save_refresh_token replacement (mark_refresh_used prior.id t).0 replacement.id,
  eq_iff replacement.id replacement.id,
)

rotate_refresh_token-IsIndexed :
    (prior replacement : RefreshToken) (t : Tables)
    → lookup prior.id t.refresh_tokens ≡ some prior
    → IsIndexed t
    → IsIndexed (rotate_refresh_token prior replacement t).0
rotate_refresh_token-IsIndexed prior replacement t h x =
    subst (λ (r : Tables × Result RefreshRotateError (Unit {0})). IsIndexed r.0)
      (sym (rotate_refresh_token-eq prior replacement t h))
      (save_refresh_token-IsIndexed replacement (mark_refresh_used prior.id t).0
        (mark_refresh_used-IsIndexed prior.id t x))

module _ (refresh_token_hash : String → List ℕ → String) where
  validate_refresh-eq :
      (now : ℕ) (secret : String) (key : List ℕ) (t : Tables) (tok : RefreshToken)
      → lookup (refresh_token_hash secret key) t.refresh_tokens ≡ some tok
      → validate_refresh refresh_token_hash now secret key t ≡ (
          if ltb tok.expires_at now
          then (t, err expired)
          else if tok.used
          then (revoke_token_family tok.family_id t, err reuse)
          else (t, ok (record { prior = tok })))
  unfolding validate_refresh get_refresh_token
  validate_refresh-eq now secret key t tok h = ground arith

  validate_refresh-unknown :
      (now : ℕ) (secret : String) (key : List ℕ) (t : Tables)
      → lookup (refresh_token_hash secret key) t.refresh_tokens ≡ none
      → validate_refresh refresh_token_hash now secret key t ≡ (t, err not_found)
  unfolding validate_refresh get_refresh_token
  validate_refresh-unknown now secret key t h = ground arith

  accepted :
      (now : ℕ) (secret : String) (key : List ℕ) (t : Tables) (prior : RefreshToken)
      → (validate_refresh refresh_token_hash now secret key t).1 ≡ ok (record { prior = prior })
      → (lookup (refresh_token_hash secret key) t.refresh_tokens ≡ some prior)
        × (now ≤ prior.expires_at)
        × (prior.used ≡ false)
  accepted now secret key t prior h =
      elim (Option-cases (lookup (refresh_token_hash secret key) t.refresh_tokens)) [
        | inl missing ↦ ground (arith, validate_refresh-unknown now secret key t missing)
        | inr (tok, found) ↦
            let e = validate_refresh-eq now secret key t tok found in
            elim (Bool-cases (ltb tok.expires_at now)) [
              | inl late ↦ ground arith
              | inr live ↦ elim (Bool-cases tok.used) [
                | inl reused ↦ ground arith
                | inr fresh ↦
                    let it : tok ≡ prior = ground arith in
                    subst
                      (λ (x : RefreshToken).
                        (lookup (refresh_token_hash secret key) t.refresh_tokens ≡ some x)
                        × (now ≤ x.expires_at)
                        × (x.used ≡ false))
                      it (found, ground (arith, lt→ltb tok.expires_at now), fresh)
              ]
            ]
      ]

  -- A secret is accepted exactly when its token is stored, has not expired and is not used.
  pub validate_refresh_iff :
      (now : ℕ) (secret : String) (key : List ℕ) (t : Tables) (prior : RefreshToken)
      → ((validate_refresh refresh_token_hash now secret key t).1 ≡ ok (record { prior = prior }))
        ↔ ((lookup (refresh_token_hash secret key) t.refresh_tokens ≡ some prior)
            × (now ≤ prior.expires_at)
            × (prior.used ≡ false))
  validate_refresh_iff now secret key t prior = (
    accepted now secret key t prior,
    λ (h, le, u). ground (
      arith,
      validate_refresh-eq now secret key t prior h,
      le→ltb now prior.expires_at,
      ltb→lt prior.expires_at now,
    ),
  )

  -- A used token that has not expired is refused as a reuse, and its family is burned: every token
  -- of the family is gone, and the tokens of other families are as they were.
  validate_refresh-IsBurned :
      (now : ℕ) (secret : String) (key : List ℕ) (t : Tables) (tok : RefreshToken)
      → IsIndexed t
      → IsOwned t
      → lookup (refresh_token_hash secret key) t.refresh_tokens ≡ some tok
      → now ≤ tok.expires_at
      → tok.used ≡ true
      → ((validate_refresh refresh_token_hash now secret key t).1 ≡ err reuse)
        × IsBurned tok.family_id t (validate_refresh refresh_token_hash now secret key t).0
  validate_refresh-IsBurned now secret key t tok x v h le u =
      let e : validate_refresh refresh_token_hash now secret key t
          ≡ (revoke_token_family tok.family_id t, err reuse) =
        ground (arith, validate_refresh-eq now secret key t tok h, ltb→lt tok.expires_at now) in
      subst
        (λ (r : Tables × Result RefreshRotateError RefreshOutcome).
          (r.1 ≡ err reuse) × IsBurned tok.family_id t r.0)
        (sym e) (refl, revoke_token_family-IsBurned tok.family_id t x v)

  -- In tables where each stored token is under its id and listed by its family, for a token that was
  -- accepted and rotated for a replacement of its family with another id: when its secret is presented
  -- again before it expires, it is refused as a reuse, and no token of the family is left, the
  -- replacement included.
  pub validate_refresh-replay :
      (now later : ℕ) (secret : String) (key : List ℕ) (t : Tables)
      (prior replacement : RefreshToken)
      → IsIndexed t
      → (validate_refresh refresh_token_hash now secret key t).1 ≡ ok (record { prior = prior })
      → later ≤ prior.expires_at
      → replacement.family_id ≡ prior.family_id
      → prior.id ≢ replacement.id
      → let rotated = (rotate_refresh_token prior replacement t).0 in
        ((validate_refresh refresh_token_hash later secret key rotated).1 ≡ err reuse)
        × IsWithout prior.family_id (validate_refresh refresh_token_hash later secret key rotated).0
        × (lookup replacement.id
              (validate_refresh refresh_token_hash later secret key rotated).0.refresh_tokens
            ≡ none)
  validate_refresh-replay now later secret key t prior replacement x h le fam other =
      let (found, live, unused) = accepted now secret key t prior h in
      let at : prior.id ≡ refresh_token_hash secret key =
        (x.listed (refresh_token_hash secret key) prior found).0 in
      let stored : lookup prior.id t.refresh_tokens ≡ some prior =
        subst (λ (k : String). lookup k t.refresh_tokens ≡ some prior) (sym at) found in
      let rotated : Tables = (rotate_refresh_token prior replacement t).0 in
      let spent : lookup (refresh_token_hash secret key) rotated.refresh_tokens
          ≡ some (record prior { used = true }) =
        subst
          (λ (k : String). lookup k rotated.refresh_tokens ≡ some (record prior { used = true })) at
          (rotate_refresh_token-lookup prior replacement t stored other) in
      let e : validate_refresh refresh_token_hash later secret key rotated
          ≡ (revoke_token_family prior.family_id rotated, err reuse) =
        ground (
          arith,
          validate_refresh-eq later secret key rotated (record prior { used = true }) spent,
          ltb→lt prior.expires_at later,
        ) in
      let indexed = rotate_refresh_token-IsIndexed prior replacement t stored x in
      subst
        (λ (r : Tables × Result RefreshRotateError RefreshOutcome).
          (r.1 ≡ err reuse)
          × IsWithout prior.family_id r.0
          × (lookup replacement.id r.0.refresh_tokens ≡ none))
        (sym e)
        (
          refl,
          λ k tok was. (revoke_token_family-survivor prior.family_id rotated indexed k tok was).1,
          elim (Option-cases (
              lookup replacement.id (revoke_token_family prior.family_id rotated).refresh_tokens)) [
                | inl gone ↦ gone
                | inr (tok, left) ↦
                    let (was, out) =
                      revoke_token_family-survivor prior.family_id rotated indexed replacement.id
                        tok left in
                    let it : replacement ≡ tok =
                      ground (arith, rotate_refresh_token-replacement prior replacement t stored) in
                    absurd (out (sym (ap (λ (y : RefreshToken). y.family_id) it) ∙ fam))
              ],
        )
