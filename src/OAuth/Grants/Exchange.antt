-- ===== src/OAuth/Grants/Exchange.antt =====
-- What the exchange of a code promises, crates/geonosis-protocol-oauth/src/grants.rs.
use geonosis.Base.{
  ℕ, String, false, not, ◌||◌, Option, none, some, Result, ok, err, ◌>>=◌, >>=-eq-ok, any, lookup,
  remove, insert, lookup-insert_self, lookup-remove_self, ◌⊎◌, ◌==◌, string_eq, ◌≡◌, ◌≤◌, refl, sym,
  ap, ◌∙◌, inl, inr, Bool-cases, Option-cases, Result-cases, arith, lt→ltb,
}
use text.Mathlib.TextEquality.{eq_iff}
use geonosis.Base.Int.{ℤ}
use geonosis.Core.Client.{Client}
use geonosis.Core.Token.{CodeChallenge, CodeGrant, as_str}
use geonosis.Storage.Tokens.{Tables, consume_code, save_refresh_token}
use geonosis.OAuth.Bytes.{as_bytes}
use geonosis.OAuth.Pkce.Verifier.{IsVerifier, verify_code-IsVerifier_iff}
use geonosis.OAuth.Pkce.{PkceError, verify_code_verifier_against_challenge}
use geonosis.Core.Realm.{Realm}
use geonosis.OAuth.Grants.{
  IssuedTokens, GrantError, TokenIssuer, Outside, AuthorizationCodeGrant, is_public, refuse,
  map_pkce, check_pkce, check_code, mint, issue, redeem, exchange,
}

module _ (out : Outside) (issuer : TokenIssuer) (self : AuthorizationCodeGrant) (client : Client)
    (realm : Realm) where
  -- No exchange puts a code back.
  issue-codes :
      (code : CodeGrant) (minted : (String × ℤ) × Option String) (t : Tables)
      → (issue out issuer client realm code minted t).0.codes ≡ t.codes
  unfolding issue save_refresh_token
  issue-codes code minted t =
      elim (Bool-cases
        (not (is_public client.kind) || any (λ s. s == "offline_access") code.scope)) [
          | inl yes_ ↦ ground arith
          | inr no_ ↦ ground arith
        ]

  redeem-codes :
      (code : CodeGrant) (t : Tables)
      → (redeem out issuer self client realm code t).0.codes ≡ t.codes
  unfolding redeem
  redeem-codes code t =
      elim (Result-cases (check_code out self client code >>= λ u. mint issuer client realm code)) [
        | inl (minted, e) ↦ ground (arith, issue-codes code minted t)
        | inr (e, h) ↦ ground arith
      ]

  exchange-codes :
      (t : Tables) → (exchange out issuer self client realm t).0.codes ≡ remove self.code t.codes
  unfolding exchange consume_code
  exchange-codes t = elim (Option-cases (lookup self.code t.codes)) [
    | inl missing ↦ ground arith
    | inr (code, found) ↦
        ground (arith, redeem-codes code (record t { codes = remove self.code t.codes }))
  ]

  exchange-missing :
      (t : Tables)
      → lookup self.code t.codes ≡ none
      → (exchange out issuer self client realm t).1 ≡ refuse "code unknown or already used"
  unfolding exchange consume_code
  exchange-missing t missing = ground arith

  exchange-found :
      (t : Tables) (code : CodeGrant)
      → lookup self.code t.codes ≡ some code
      → exchange out issuer self client realm t
        ≡ redeem out issuer self client realm code (record t { codes = remove self.code t.codes })
  unfolding exchange consume_code
  exchange-found t code found = ground arith

-- After an exchange of a code, whatever its result was, any exchange of the same code is refused as
-- of a code that is unknown or already used.
pub exchange-single_use :
    (out out' : Outside) (issuer : TokenIssuer) (self self' : AuthorizationCodeGrant)
    (client client' : Client) (realm : Realm) (t : Tables)
    → self'.code ≡ self.code
    → (exchange out' issuer self' client' realm (exchange out issuer self client realm t).0).1
      ≡ refuse "code unknown or already used"
exchange-single_use out out' issuer self self' client client' realm t same =
    exchange-missing out' issuer self' client' realm (exchange out issuer self client realm t).0 (
      ap (lookup self'.code) (exchange-codes out issuer self client realm t)
      ∙ ap (λ (c : String). lookup c (remove self.code t.codes)) same
      ∙ lookup-remove_self self.code t.codes)

map_pkce-ok : (r : Result PkceError (Unit {0})) → map_pkce r ≡ ok tt → r ≡ ok tt
map_pkce-ok (ok u) h = refl
map_pkce-ok (err e) h = cc

-- The proof of a successful exchange: a confidential client without a challenge, or a valid
-- verifier whose encoded hash has the bytes of the challenge.
abbrev pub IsProof : Outside → AuthorizationCodeGrant → Client → CodeGrant → Type 0
IsProof out self client code =
    ((code.code_challenge ≡ none) × (is_public client.kind ≡ false))
    ⊎ ((challenge : CodeChallenge) × (v : String) × (code.code_challenge ≡ some challenge)
        × (self.code_verifier ≡ some v)
        × IsVerifier v
        × (as_bytes (out.encode (out.sha256 (as_bytes v))) ≡ as_bytes challenge.challenge))

check_pkce-IsProof :
    (out : Outside) (self : AuthorizationCodeGrant) (client : Client) (code : CodeGrant)
    → check_pkce out self client code ≡ ok tt
    → IsProof out self client code
unfolding check_pkce
check_pkce-IsProof out self client code h = elim (Option-cases code.code_challenge) [
  | inl bare ↦ elim (Bool-cases (is_public client.kind)) [
    | inl open_ ↦ ground arith
    | inr kept ↦ inl (bare, kept)
  ]
  | inr (challenge, bound) ↦ elim (Option-cases self.code_verifier) [
    | inl missing ↦ ground arith
    | inr (v, given) ↦
        let (s256, valid, same) =
          (verify_code-IsVerifier_iff out.sha256 out.encode (as_str challenge.method) v
              challenge.challenge).0
            (map_pkce-ok
              (verify_code_verifier_against_challenge out.sha256 out.encode
                (as_str challenge.method) v challenge.challenge)
              (ground arith)) in
        inr (challenge, v, bound, given, valid, same)
  ]
]

-- What a successful exchange has checked of the stored code.
pub record IsChecked (out : Outside) (self : AuthorizationCodeGrant) (client : Client)
    (code : CodeGrant) : Type 0 where
  pub live : out.now ≤ code.expires_at
  pub same_client : client.client_id ≡ self.client_id
  pub same_redirect : code.redirect_uri ≡ self.redirect_uri
  pub proved : IsProof out self client code

check_code-IsChecked :
    (out : Outside) (self : AuthorizationCodeGrant) (client : Client) (code : CodeGrant)
    → check_code out self client code ≡ ok tt
    → IsChecked out self client code
unfolding check_code
check_code-IsChecked out self client code h = record {
  live = ground (arith, lt→ltb code.expires_at out.now);
  same_client = ground (arith, eq_iff client.client_id self.client_id);
  same_redirect = ground (arith, eq_iff code.redirect_uri self.redirect_uri);
  proved = check_pkce-IsProof out self client code (ground arith);
}

redeem-IsChecked :
    (out : Outside) (issuer : TokenIssuer) (self : AuthorizationCodeGrant) (client : Client)
    (realm : Realm) (code : CodeGrant) (t : Tables) (tokens : IssuedTokens)
    → (redeem out issuer self client realm code t).1 ≡ ok tokens
    → IsChecked out self client code × (tokens.session_id ≡ code.session_id)
unfolding redeem issue
redeem-IsChecked out issuer self client realm code t tokens h =
    elim (Result-cases (check_code out self client code >>= λ u. mint issuer client realm code)) [
      | inr (e, failed) ↦ ground arith
      | inl (minted, made) ↦
          let (u, checked, rest) =
            >>=-eq-ok (check_code out self client code) (λ u. mint issuer client realm code) minted
              made in
          (check_code-IsChecked out self client code checked, ground arith)
    ]

-- An exchange that returns tokens had its code stored, not expired at the time of the check, with
-- the redirect URI of the request, from the client that the request names; the proof key was
-- presented as the code and the client's kind demand; the tokens carry the session of the code.
pub exchange-IsChecked :
    (out : Outside) (issuer : TokenIssuer) (self : AuthorizationCodeGrant) (client : Client)
    (realm : Realm) (t : Tables) (tokens : IssuedTokens)
    → (exchange out issuer self client realm t).1 ≡ ok tokens
    → (code : CodeGrant) × (lookup self.code t.codes ≡ some code)
      × IsChecked out self client code
      × (tokens.session_id ≡ code.session_id)
exchange-IsChecked out issuer self client realm t tokens h =
    elim (Option-cases (lookup self.code t.codes)) [
      | inl missing ↦ ground (arith, exchange-missing out issuer self client realm t missing)
      | inr (code, found) ↦
          let (checked, session) =
            redeem-IsChecked out issuer self client realm code
              (record t { codes = remove self.code t.codes }) tokens
              (sym (
                  ap (λ (r : Tables × Result GrantError IssuedTokens). r.1)
                    (exchange-found out issuer self client realm t code found))
                ∙ h) in
          (code, found, checked, session)
    ]

issue-unbound :
    (out : Outside) (issuer : TokenIssuer) (client : Client) (realm : Realm) (code : CodeGrant)
    (t t' : Tables) (other : ℕ) (made : Result GrantError ((String × ℤ) × Option String))
    → (elim made as (λ x. Tables × Result GrantError IssuedTokens) [
      | err e ↦ (t', err e)
      | ok minted ↦
          let (saved, tokens) =
            issue out issuer client realm (record code { client_id = other }) minted t' in
          (saved, ok tokens)
    ]).1
      ≡ (elim made as (λ x. Tables × Result GrantError IssuedTokens) [
        | err e ↦ (t, err e)
        | ok minted ↦
            let (saved, tokens) = issue out issuer client realm code minted t in (saved, ok tokens)
      ]).1
unfolding issue
issue-unbound out issuer client realm code t t' other (ok minted) = refl
issue-unbound out issuer client realm code t t' other (err e) = refl

redeem-unbound :
    (out : Outside) (issuer : TokenIssuer) (self : AuthorizationCodeGrant) (client : Client)
    (realm : Realm) (code : CodeGrant) (t t' : Tables) (other : ℕ)
    → (redeem out issuer self client realm (record code { client_id = other }) t').1
      ≡ (redeem out issuer self client realm code t).1
unfolding redeem issue check_code check_pkce mint
redeem-unbound out issuer self client realm code t t' other =
    issue-unbound out issuer client realm code t t' other
      (check_code out self client code >>= λ u. mint issuer client realm code)

-- The client that a code was issued to has no part in its exchange: with the stored code bound to
-- any other client, the exchange has the same result.
pub exchange-unbound :
    (out : Outside) (issuer : TokenIssuer) (self : AuthorizationCodeGrant) (client : Client)
    (realm : Realm) (t : Tables) (code : CodeGrant) (other : ℕ)
    → lookup self.code t.codes ≡ some code
    → (exchange out issuer self client realm
        (record t { codes = insert self.code (record code { client_id = other }) t.codes })).1
      ≡ (exchange out issuer self client realm t).1
exchange-unbound out issuer self client realm t code other found =
    let forged : Tables = record t {
      codes = insert self.code (record code { client_id = other }) t.codes;
    } in
    ap (λ (r : Tables × Result GrantError IssuedTokens). r.1)
      (exchange-found out issuer self client realm forged (record code { client_id = other })
        (lookup-insert_self self.code (record code { client_id = other }) t.codes))
    ∙ redeem-unbound out issuer self client realm code
        (record t { codes = remove self.code t.codes })
        (record forged { codes = remove self.code forged.codes }) other
    ∙ sym (
        ap (λ (r : Tables × Result GrantError IssuedTokens). r.1)
          (exchange-found out issuer self client realm t code found))
