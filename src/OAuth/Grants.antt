-- ===== src/OAuth/Grants.antt =====
-- crates/geonosis-protocol-oauth/src/grants.rs: the engine of the authorization-code grant and the
-- test of a client's grant policy. The issuer that signs tokens, the hashes, the random secret, the
-- fresh family and the readings of the clock come from outside and are arguments.
pub mod Exchange
use geonosis.Base.{
  ℕ, ◌+◌, String, str_append, Bool, true, false, not, ◌||◌, Option, none, some, List, [], ◌∷◌,
  Result, ok, err, ◌>>=◌, ok_or, if◌then◌else◌, ltb, any, ◌==◌, string_eq,
}
use geonosis.Base.Int.{ℤ}
use geonosis.Core.Subject.{Subject, local}
use geonosis.Core.Client.{ClientKind, Client, GrantType, permits, as_token_param}
use geonosis.Core.Realm.{Realm}
use geonosis.Core.Token.{CodeChallenge, as_str, CodeGrant, RefreshToken}
use geonosis.Storage.Tokens.{Tables, consume_code, save_refresh_token}
use geonosis.OAuth.Errors.{
  OAuthErrorCode, unauthorized_client, invalid_grant, OAuthError, oauth_error,
}
use geonosis.OAuth.Pkce.{PkceError, verify_code_verifier_against_challenge}

pub data TokenType : Type 0 where
  bearer dpop : TokenType

pub record IssuedTokens : Type 0 where
  pub access_token : String
  pub access_token_expires_in : ℤ
  pub id_token : Option String
  pub refresh_token : Option String
  pub scope : String
  pub token_type : TokenType
  pub session_id : String

pub data GrantError : Type 0 where
  oauth : OAuthError → GrantError
  storage internal : String → GrantError
  pkce : PkceError → GrantError

pub record TokenIssuer : Type 0 where
  pub mint_access_token :
      Realm → Client → Subject → String → List String → Result GrantError (String × ℤ)
  pub mint_id_token :
      Realm
      → Client
      → Subject
      → String
      → List String
      → Option String
      → Option String
      → Result GrantError String
  pub refresh_hash_key : ℕ → List ℕ

-- The functions of the dependencies, and what one exchange draws: a secret, a family and the three
-- readings of the clock.
pub record Outside : Type 0 where
  pub sha256 : List ℕ → List ℕ
  pub encode : List ℕ → String
  pub refresh_token_hash : String → List ℕ → String
  pub from_std : ℕ → Option ℕ
  pub secret : String
  pub new_family : ℕ
  pub now : ℕ
  pub now_issued : ℕ
  pub now_expiry : ℕ

pub record AuthorizationCodeGrant : Type 0 where
  pub code : String
  pub code_verifier : Option String
  pub redirect_uri : String
  pub client_id : String

-- `kind == ClientKind::Public`
unfoldable pub is_public : ClientKind → Bool
is_public ClientKind.public = true
is_public _ = false

-- `.collect::<Vec<_>>().join(" ")`
unfoldable pub join : List String → String
join [] = ""
join (s ∷ []) = s
join (s ∷ r ∷ rest) = str_append s (str_append " " (join (r ∷ rest)))

abbrev pub refuse : {A : Type 0} → String → Result GrantError A
refuse description = err (oauth (oauth_error invalid_grant description))

abbrev pub map_pkce : Result PkceError (Unit {0}) → Result GrantError (Unit {0})
map_pkce (ok u) = ok u
map_pkce (err e) = err (pkce e)

-- Step 5, the proof key.
unfoldable pub check_pkce :
    Outside → AuthorizationCodeGrant → Client → CodeGrant → Result GrantError (Unit {0})
check_pkce out self client code = elim code.code_challenge [
  | some challenge ↦ elim self.code_verifier [
    | none ↦ refuse "code_verifier required"
    | some v ↦ map_pkce (
        verify_code_verifier_against_challenge out.sha256 out.encode (as_str challenge.method) v
          challenge.challenge)
  ]
  | none ↦ if is_public client.kind then refuse "PKCE required for public clients" else ok tt
]

-- Steps 2 to 5.
unfoldable pub check_code :
    Outside → AuthorizationCodeGrant → Client → CodeGrant → Result GrantError (Unit {0})
check_code out self client code =
    if ltb code.expires_at out.now
    then refuse "code expired"
    else if not (client.client_id == self.client_id)
    then refuse "client_id mismatch"
    else if not (code.redirect_uri == self.redirect_uri)
    then refuse "redirect_uri mismatch"
    else check_pkce out self client code

-- Step 6, the access token with its lifetime and the id token.
unfoldable pub mint :
    TokenIssuer → Client → Realm → CodeGrant → Result GrantError ((String × ℤ) × Option String)
mint issuer client realm code =
    issuer.mint_access_token realm client (local code.user_id) code.session_id code.scope
    >>= λ access.
        if any (λ s. s == "openid") code.scope
        then (issuer.mint_id_token realm client (local code.user_id) code.session_id code.scope
              code.nonce code.acr
            >>= λ id_token. ok (access, some id_token))
        else ok (access, none)

unfoldable pub new_refresh_token : Outside → TokenIssuer → Client → Realm → CodeGrant → RefreshToken
new_refresh_token out issuer client realm code = record {
  id = out.refresh_token_hash out.secret (issuer.refresh_hash_key realm.id);
  family_id = out.new_family;
  realm_id = realm.id;
  client_id = client.id;
  user_id = code.user_id;
  session_id = code.session_id;
  scope = code.scope;
  issued_at = out.now_issued;
  expires_at =
      out.now_expiry + elim (out.from_std realm.refresh_token_lifespan) [ none ↦ 0 | some d ↦ d ];
  used = false;
}

-- Step 7 and the result.
unfoldable pub issue :
    Outside
    → TokenIssuer
    → Client
    → Realm
    → CodeGrant
    → (String × ℤ) × Option String
    → Tables
    → Tables × IssuedTokens
issue out issuer client realm code minted t =
    let refreshable = not (is_public client.kind) || any (λ s. s == "offline_access") code.scope in
    (
      if refreshable
          then save_refresh_token (new_refresh_token out issuer client realm code) t
          else t,
      record {
        access_token = minted.0.0;
        access_token_expires_in = minted.0.1;
        id_token = minted.1;
        refresh_token = if refreshable then some out.secret else none;
        scope = join code.scope;
        token_type = bearer;
        session_id = code.session_id;
      },
    )

-- Steps 2 to 7 on a code that was consumed.
unfoldable pub redeem :
    Outside
    → TokenIssuer
    → AuthorizationCodeGrant
    → Client
    → Realm
    → CodeGrant
    → Tables
    → Tables × Result GrantError IssuedTokens
redeem out issuer self client realm code t =
    elim (check_code out self client code >>= λ u. mint issuer client realm code) [
      | err e ↦ (t, err e)
      | ok minted ↦
          let (saved, tokens) = issue out issuer client realm code minted t in (saved, ok tokens)
    ]

unfoldable pub exchange :
    Outside
    → TokenIssuer
    → AuthorizationCodeGrant
    → Client
    → Realm
    → Tables
    → Tables × Result GrantError IssuedTokens
exchange out issuer self client realm t =
    let (rest, found) = consume_code self.code t in
    elim found [
      | err e ↦ (rest, refuse "code unknown or already used")
      | ok code ↦ redeem out issuer self client realm code rest
    ]

unfoldable pub assert_grant_permitted : Client → GrantType → Result OAuthError (Unit {0})
assert_grant_permitted client grant =
    if permits client.grants grant
    then ok tt
    else err (
        oauth_error unauthorized_client
          (str_append "grant_type " (str_append (as_token_param grant) " disabled for client")))
