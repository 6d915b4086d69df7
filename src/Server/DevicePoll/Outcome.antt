-- ===== src/Server/DevicePoll/Outcome.antt =====
-- When a device gets its tokens, crates/geonosis-server/src/handlers/token.rs.
use geonosis.Base.{
  List, subst, ℕ, String, Bool, true, false, not, ◌||◌, some, lookup, lookup-remove_self, nat_eq,
  string_eq, nat_beq, nat_beq_iff, ltb, Result, ok, err, ◌≡◌, refl, sym, ap, ◌∙◌, arith, inl, inr,
  Bool-cases, Option-cases, Result-cases, if◌then◌else◌,
}
use geonosis.Core.Client.{Client}
use geonosis.Core.Realm.{Realm}
use geonosis.Storage.Errors.{StorageError, not_found, found}
use geonosis.Storage.Tokens.{
  Tables, DeviceGrant, DeviceGrantStatus, pending, approved, denied, expired, save_refresh_token,
  get_device_grant_by_device_code, delete_device_grant,
}
use geonosis.OAuth.Errors.{OAuthError, oauth_error, invalid_grant, expired_token, slow_down}
use geonosis.OAuth.Grants.{IssuedTokens, TokenIssuer}
use geonosis.Server.DevicePoll.{
  Stores, Draws, mint_user_tokens, issue_user_tokens, by_status, too_soon, poll, handle_device_code,
}

-- The device code of a grant that was deleted is unknown.
deleted :
    (t : Tables) (code : String) (grant : DeviceGrant)
    → get_device_grant_by_device_code code t ≡ ok grant
    → get_device_grant_by_device_code code (delete_device_grant code t).0 ≡ err not_found
unfolding get_device_grant_by_device_code delete_device_grant
deleted t code grant h =
    rw
      (
        delete_device_grant,
        found (lookup code t.device_by_device_code) grant h,
        lookup-remove_self code t.device_by_device_code,
      )
      refl

-- Issuing tokens leaves the device grants alone.
issue_user_tokens_keeps :
    (draws : Draws) (issuer : TokenIssuer) (client : Client) (realm : Realm) (user : ℕ)
    (scope : List String) (t : Stores) (code : String)
    → get_device_grant_by_device_code code
        (issue_user_tokens draws issuer client realm user scope t).0.tokens
      ≡ get_device_grant_by_device_code code t.tokens
unfolding issue_user_tokens get_device_grant_by_device_code save_refresh_token
issue_user_tokens_keeps draws issuer client realm user scope t code =
    elim (Result-cases (mint_user_tokens draws issuer client realm user scope)) [
      | inl (minted, q) ↦ elim (Bool-cases client.grants.refresh_token) [
        | inl yes_token ↦ rw (issue_user_tokens, q, yes_token) refl
        | inr no_token ↦ rw (issue_user_tokens, q, no_token) refl
      ]
      | inr (e, q) ↦ rw (issue_user_tokens, q) refl
    ]

-- An answer behind three guards that refuse.
three_guards :
    (a b c : Bool) (t u v : Stores) (d e f : OAuthError)
    (rest : Stores × Result OAuthError IssuedTokens) (tokens : IssuedTokens)
    → let end : Stores × Result OAuthError IssuedTokens =
        if a then (t, err d) else if b then (u, err e) else if c then (v, err f) else rest in
      end.1 ≡ ok tokens → (a ≡ false) × (b ≡ false) × (c ≡ false) × (end ≡ rest)
three_guards true b c t u v d e f rest tokens q = cc
three_guards false true c t u v d e f rest tokens q = cc
three_guards false false true t u v d e f rest tokens q = cc
three_guards false false false t u v d e f rest tokens q = (refl, refl, refl, refl)

-- What a poll that was answered with tokens had and leaves.
pub record IsApproved (draws : Draws) (client : Client) (realm : Realm) (code : String)
    (t after : Stores) : Type 0 where
  pub grant : DeviceGrant
  pub user : ℕ
  pub stored : get_device_grant_by_device_code code t.tokens ≡ ok grant
  pub in_realm : grant.realm_id ≡ realm.id
  pub of_client : grant.client_id ≡ client.id
  pub live : ltb grant.expires_at draws.now ≡ false
  pub in_time : too_soon draws grant ≡ false
  pub status : grant.status ≡ approved
  pub is_user : grant.user_id ≡ some user
  pub gone : get_device_grant_by_device_code code after.tokens ≡ err not_found

module _ (draws : Draws) (issuer : TokenIssuer) (client : Client) (realm : Realm) (code : String)
    (t : Stores) (tokens : IssuedTokens) where
  by_status-ok :
      (grant : DeviceGrant) (s : DeviceGrantStatus)
      → grant.status ≡ s
      → get_device_grant_by_device_code code t.tokens ≡ ok grant
      → (by_status draws issuer client realm code grant t).1 ≡ ok tokens
      → (user : ℕ) × (grant.status ≡ approved)
        × (grant.user_id ≡ some user)
        × (get_device_grant_by_device_code code
              (by_status draws issuer client realm code grant t).0.tokens
            ≡ err not_found)
  unfolding by_status
  by_status-ok grant pending e stored q = ground arith
  by_status-ok grant denied e stored q = ground arith
  by_status-ok grant expired e stored q = ground arith
  by_status-ok grant approved e stored q = elim (Option-cases grant.user_id) [
    | inl no_user ↦ ground arith
    | inr (user, is_user) ↦ (
      user,
      e,
      is_user,
      rw (by_status, e, is_user)
          (issue_user_tokens_keeps draws issuer client realm user grant.scope
              (record t { tokens = (delete_device_grant code t.tokens).0 }) code
            ∙ deleted t.tokens code grant stored),
    )
  ]

  poll-ok :
      (grant : DeviceGrant)
      → get_device_grant_by_device_code code t.tokens ≡ ok grant
      → (poll draws issuer client realm code grant t).1 ≡ ok tokens
      → IsApproved draws client realm code t (poll draws issuer client realm code grant t).0
  unfolding poll
  poll-ok grant stored q =
      let guards =
        three_guards
          (not (nat_beq grant.realm_id realm.id) || not (nat_beq grant.client_id client.id))
          (ltb grant.expires_at draws.now) (too_soon draws grant) t
          (record t { tokens = (delete_device_grant code t.tokens).0 }) t
          (oauth_error invalid_grant "device_code mismatch")
          (oauth_error expired_token "device_code expired") (oauth_error slow_down "slow down")
          (by_status draws issuer client realm code grant t) tokens q in
      let (user, status, is_user, gone) =
        by_status-ok grant grant.status refl stored (sym (ap (λ x. x.1) guards.3) ∙ q) in
      record {
        grant = grant;
        user = user;
        stored = stored;
        in_realm = let same = guards.0 in ground (arith, nat_beq_iff grant.realm_id realm.id);
        of_client = let same = guards.0 in ground (arith, nat_beq_iff grant.client_id client.id);
        live = guards.1;
        in_time = guards.2;
        status = status;
        is_user = is_user;
        gone = ap (λ x. get_device_grant_by_device_code code x.0.tokens) guards.3 ∙ gone;
      }

handle_found :
    (draws : Draws) (issuer : TokenIssuer) (client : Client) (realm : Realm) (code : String)
    (grant : DeviceGrant) (t : Stores)
    → get_device_grant_by_device_code code t.tokens ≡ ok grant
    → handle_device_code draws issuer client realm (some code) t
      ≡ poll draws issuer client realm code grant t
unfolding handle_device_code
handle_found draws issuer client realm code grant t stored = rw (handle_device_code, stored) refl

handle_unknown :
    (draws : Draws) (issuer : TokenIssuer) (client : Client) (realm : Realm) (code : String)
    (t : Stores) (e : StorageError)
    → get_device_grant_by_device_code code t.tokens ≡ err e
    → handle_device_code draws issuer client realm (some code) t
      ≡ (t, err (oauth_error invalid_grant "unknown device_code"))
unfolding handle_device_code
handle_unknown draws issuer client realm code t e unknown = rw (handle_device_code, unknown) refl

refused :
    {tokens : IssuedTokens} {e : OAuthError}
    → ¬ ◌≡◌ {A = Result OAuthError IssuedTokens} (err e) (ok tokens)
refused q = cc

-- A poll is answered with tokens only for a stored grant of this realm and client that is approved for
-- a user, not expired, and not polled within its interval; and then the device code is unknown, so
-- that the next poll with it is refused.
pub handle_device_code-IsApproved :
    (draws next : Draws) (issuer : TokenIssuer) (client : Client) (realm : Realm) (code : String)
    (t : Stores) (tokens : IssuedTokens)
    → (handle_device_code draws issuer client realm (some code) t).1 ≡ ok tokens
    → let after = (handle_device_code draws issuer client realm (some code) t).0 in
      IsApproved draws client realm code t after
      × ((handle_device_code next issuer client realm (some code) after).1
          ≡ err (oauth_error invalid_grant "unknown device_code"))
unfolding handle_device_code
handle_device_code-IsApproved draws next issuer client realm code t tokens q =
    elim (Result-cases (get_device_grant_by_device_code code t.tokens)) [
      | inl (grant, stored) ↦
          let as_poll = handle_found draws issuer client realm code grant t stored in
          let h =
            poll-ok draws issuer client realm code t tokens grant stored
              (sym (ap (λ x. x.1) as_poll) ∙ q) in
          let end = (poll draws issuer client realm code grant t).0 in
          subst
            (λ (after : Stores).
              IsApproved draws client realm code t after
              × ((handle_device_code next issuer client realm (some code) after).1
                  ≡ err (oauth_error invalid_grant "unknown device_code")))
            (sym (ap (λ x. x.0) as_poll))
            (h, ap (λ x. x.1) (handle_unknown next issuer client realm code end not_found h.gone))
      | inr (e, unknown) ↦ absurd (
          refused
            (sym (ap (λ x. x.1) (handle_unknown draws issuer client realm code t e unknown)) ∙ q))
    ]
