-- ===== src/OAuth/Examples.antt =====
-- Concrete runs of the grants: two refresh tokens of one family, and an authorization code with a
-- proof key.
use geonosis.Base.{
  ℕ, String, Bool, true, false, none, some, List, [], ◌∷◌, ok, err, any, all, lookup, remove,
  insert, string_eq, nat_eq, ◌≡◌, ◌≢◌, ◌↔◌, ◌≤◌, refl, arith,
}
use geonosis.Base.Int.{pos}
use text.Mathlib.TextEquality.{eq_iff}
use geonosis.Core.Client.{Client, ClientKind}
use geonosis.Core.Token.{s256, CodeGrant, RefreshToken}
use geonosis.Storage.Tokens.{Tables, consume_code, empty, save_refresh_token, save_code_grant}
use geonosis.Storage.Tokens.Families.{IsIndexed, empty-IsIndexed, save_refresh_token-IsIndexed}
use geonosis.Storage.Tokens.Reachable.{Reachable-IsIndexed, saved, started}
use geonosis.Storage.Tokens.Owners.{IsOwned, empty-IsOwned, IsFresh, save_refresh_token-IsOwned}
use geonosis.OAuth.Bytes.{
  as_bytes, bytes_eq, to_ascii_lowercase, bit_or, bit_xor, eq_ignore_ascii_case,
}
use geonosis.OAuth.Refresh.{reuse, validate_refresh, rotate_refresh_token}
use geonosis.OAuth.Refresh.Reuse.{IsWithout, validate_refresh_iff, validate_refresh-replay}
use geonosis.OAuth.Pkce.{
  difference, derive_challenge_s256, constant_time_eq_str, validate_code_verifier,
  verify_code_verifier_against_challenge,
}
use geonosis.OAuth.Pkce.Verifier.{IsVerifier, verify_code-IsVerifier_iff}
use geonosis.Core.Realm.{Realm}
use geonosis.OAuth.Grants.{
  TokenIssuer, Outside, AuthorizationCodeGrant, IssuedTokens, bearer, refuse, exchange, redeem,
  check_code, check_pkce, mint, issue, join, is_public,
}
use geonosis.OAuth.Grants.Exchange.{
  IsChecked, exchange-single_use, exchange-IsChecked, exchange-unbound,
}

-- A hash that keeps the secret as it is.
abbrev hash : String → List ℕ → String
hash secret key = secret

abbrev token_of : String → Bool → RefreshToken
token_of id used = record {
  id = id;
  family_id = 7;
  realm_id = 1;
  client_id = 2;
  user_id = 3;
  session_id = "session";
  scope = [];
  issued_at = 0;
  expires_at = 60;
  used = used;
}

abbrev fresh_tables : Tables
fresh_tables = save_refresh_token (token_of "a" false) empty

abbrev used_tables : Tables
used_tables = save_refresh_token (token_of "a" true) empty

fresh_found : lookup "a" fresh_tables.refresh_tokens ≡ some (token_of "a" false)
unfolding lookup insert save_refresh_token
fresh_found = refl

used_found : lookup "a" used_tables.refresh_tokens ≡ some (token_of "a" true)
unfolding lookup insert save_refresh_token
used_found = refl

never_listed : (id : String) → IsFresh id empty
unfolding lookup
never_listed id family i = i

fresh-IsIndexed : IsIndexed fresh_tables
fresh-IsIndexed = save_refresh_token-IsIndexed (token_of "a" false) empty empty-IsIndexed

used-IsIndexed : IsIndexed used_tables
used-IsIndexed = save_refresh_token-IsIndexed (token_of "a" true) empty empty-IsIndexed

used-IsOwned : IsOwned used_tables
used-IsOwned = save_refresh_token-IsOwned (token_of "a" true) empty (never_listed "a") empty-IsOwned

validate_refresh_iff_example :
    ((validate_refresh hash 5 "a" [] fresh_tables).1 ≡ ok (record { prior = token_of "a" false }))
    ↔ ((lookup "a" fresh_tables.refresh_tokens ≡ some (token_of "a" false))
        × (5 ≤ 60)
        × (false ≡ false))
validate_refresh_iff_example = validate_refresh_iff hash 5 "a" [] fresh_tables (token_of "a" false)

fresh_accepted :
    (validate_refresh hash 5 "a" [] fresh_tables).1 ≡ ok (record { prior = token_of "a" false })
fresh_accepted =
    (validate_refresh_iff hash 5 "a" [] fresh_tables (token_of "a" false)).1
      (fresh_found, omega arith, refl)

distinct : ◌≢◌ {A = String} "a" "b"
distinct e = ground (arith, eq_iff "a" "b")

abbrev rotated : Tables
rotated = (rotate_refresh_token (token_of "a" false) (token_of "b" false) fresh_tables).0

validate_refresh-replay_example :
    ((validate_refresh hash 9 "a" [] rotated).1 ≡ err reuse)
    × IsWithout 7 (validate_refresh hash 9 "a" [] rotated).0
    × (lookup "b" (validate_refresh hash 9 "a" [] rotated).0.refresh_tokens ≡ none)
validate_refresh-replay_example =
    validate_refresh-replay hash 5 9 "a" [] fresh_tables (token_of "a" false) (token_of "b" false)
      fresh-IsIndexed fresh_accepted (omega arith) refl distinct

abbrev verifier : String
verifier = "dBjftJeZ4CVP-mB92K27uhbUJU1p1r_wW1gFWFOEjXk"

-- The dependencies: the identity for the hash of bytes, and one text for every digest.
abbrev digest : List ℕ → List ℕ
digest bytes = bytes

abbrev encode : List ℕ → String
encode bytes = "challenge"

verify_code-IsVerifier_iff_example :
    (verify_code_verifier_against_challenge digest encode "s256" verifier "challenge" ≡ ok tt) ↔ (
      (eq_ignore_ascii_case "s256" "S256" ≡ true)
      × IsVerifier verifier
      × (as_bytes (encode (digest (as_bytes verifier))) ≡ as_bytes "challenge"))
verify_code-IsVerifier_iff_example =
    verify_code-IsVerifier_iff digest encode "s256" verifier "challenge"

abbrev realm : Realm
realm = record {
  id = 1;
  slug = "acme";
  auto_join_on_domain_match = true;
  sso_session_max = 50;
  refresh_token_lifespan = 100;
}

abbrev issuer : TokenIssuer
issuer = record {
  mint_access_token = λ realm client subject session scope. ok ("access", pos 300);
  mint_id_token = λ realm client subject session scope nonce acr. ok "identity";
  refresh_hash_key = λ realm. [];
}

abbrev outside : Outside
outside = record {
  sha256 = digest;
  encode = encode;
  refresh_token_hash = hash;
  from_std = λ d. some d;
  secret = "secret";
  new_family = 8;
  now = 5;
  now_issued = 5;
  now_expiry = 5;
}

abbrev app : Client
app = record {
  id = 2;
  realm_id = 1;
  client_id = "app";
  kind = ClientKind.public;
  grants = record {
    authorization_code = true;
    refresh_token = true;
    client_credentials = false;
    password = false;
    device_code = false;
    token_exchange = false;
  };
  enabled = true;
}

abbrev request : AuthorizationCodeGrant
request = record {
  code = "code";
  code_verifier = some verifier;
  redirect_uri = "https://app.example/";
  client_id = "app";
}

abbrev issued_code : CodeGrant
issued_code = record {
  code = "code";
  realm_id = 1;
  client_id = 2;
  user_id = 3;
  session_id = "session";
  scope = "openid" ∷ "email" ∷ [];
  redirect_uri = "https://app.example/";
  code_challenge = some (record { method = s256; challenge = "challenge" });
  nonce = none;
  state = none;
  amr = [];
  acr = none;
  auth_time = 0;
  created_at = 0;
  expires_at = 60;
}

abbrev code_tables : Tables
code_tables = save_code_grant issued_code empty

abbrev tokens : IssuedTokens
tokens = record {
  access_token = "access";
  access_token_expires_in = pos 300;
  id_token = some "identity";
  refresh_token = none;
  scope = "openid email";
  token_type = bearer;
  session_id = "session";
}

code_found : lookup "code" code_tables.codes ≡ some issued_code
unfolding lookup insert save_code_grant
code_found = refl

exchanged : (exchange outside issuer request app realm code_tables).1 ≡ ok tokens
unfolding lookup insert remove save_code_grant exchange consume_code redeem check_code check_pkce
    verify_code_verifier_against_challenge derive_challenge_s256 validate_code_verifier
    constant_time_eq_str difference eq_ignore_ascii_case bytes_eq to_ascii_lowercase as_bytes bit_or
    bit_xor mint issue join is_public any all
exchanged = refl

exchange-single_use_example :
    (exchange outside issuer request app realm
      (exchange outside issuer request app realm code_tables).0).1
    ≡ refuse "code unknown or already used"
exchange-single_use_example =
    exchange-single_use outside outside issuer request request app app realm code_tables refl

exchange-IsChecked_example :
    (code : CodeGrant) × (lookup "code" code_tables.codes ≡ some code)
    × IsChecked outside request app code
    × ("session" ≡ code.session_id)
exchange-IsChecked_example =
    exchange-IsChecked outside issuer request app realm code_tables tokens exchanged

exchange-unbound_example :
    (exchange outside issuer request app realm (record code_tables {
      codes = insert "code" (record issued_code { client_id = 99 }) code_tables.codes;
    })).1
    ≡ (exchange outside issuer request app realm code_tables).1
exchange-unbound_example =
    exchange-unbound outside issuer request app realm code_tables issued_code 99 code_found

Reachable-IsIndexed_example : IsIndexed used_tables × IsOwned used_tables
Reachable-IsIndexed_example =
    Reachable-IsIndexed used_tables (saved (token_of "a" true) empty (never_listed "a") started)
