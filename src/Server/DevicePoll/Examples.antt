-- ===== src/Server/DevicePoll/Examples.antt =====
-- Runs of the device poll.
use geonosis.Base.{
  ℕ, true, false, none, some, [], ◌∷◌, lookup, insert, contains_key, any, nat_eq, string_eq, ok,
  err, ◌≡◌, refl,
}
use geonosis.Base.Int.{pos}
use geonosis.Core.Client.{Client, ClientKind}
use geonosis.Core.Realm.{Realm}
use geonosis.Storage.Tokens.{
  empty, DeviceGrant, pending, approved, save_device_grant, get_device_grant_by_device_code,
  update_device_grant,
}
use geonosis.Storage.Directory.Steps.{empty as no_users}
use geonosis.OAuth.Errors.{oauth_error, invalid_grant, slow_down, authorization_pending}
use geonosis.OAuth.Grants.{TokenIssuer, IssuedTokens, bearer, join}
use geonosis.Server.DevicePoll.{
  Stores, Draws, handle_device_code, poll, too_soon, by_status, issue_user_tokens, mint_user_tokens,
}
use geonosis.Server.DevicePoll.Outcome.{IsApproved, handle_device_code-IsApproved}

abbrev naboo : Realm
naboo = record {
  id = 1;
  slug = "naboo";
  auto_join_on_domain_match = false;
  sso_session_max = 50;
  refresh_token_lifespan = 100;
}

abbrev tv : Client
tv = record {
  id = 2;
  realm_id = 1;
  client_id = "tv";
  kind = ClientKind.public;
  grants = record {
    authorization_code = false;
    refresh_token = true;
    client_credentials = false;
    password = false;
    device_code = true;
    token_exchange = false;
  };
  enabled = true;
}

abbrev issuer : TokenIssuer
issuer = record {
  mint_access_token = λ realm client subject session scope. ok ("access", pos 300);
  mint_id_token = λ realm client subject session scope nonce acr. ok "identity";
  refresh_hash_key = λ realm. [];
}

abbrev draws_at : ℕ → Draws
draws_at now = record {
  refresh_token_hash = λ secret key. secret;
  realm_key = λ realm. [];
  from_std = λ d. some d;
  num_seconds = λ a b. pos 1;
  session_id = "session";
  secret = "secret";
  new_family = 8;
  now = now;
}

abbrev grant : DeviceGrant
grant = record {
  device_code = "D";
  user_code = "U";
  realm_id = 1;
  client_id = 2;
  scope = "openid" ∷ [];
  interval_seconds = 5;
  status = approved;
  user_id = some 4;
  session_id = none;
  created_at = 0;
  expires_at = 600;
  last_polled_at = none;
}

abbrev stores : Stores
stores = record { tokens = save_device_grant grant empty; directory = no_users }

abbrev waiting : Stores
waiting = record {
  tokens = save_device_grant (record grant { status = pending }) empty;
  directory = no_users;
}

abbrev issued : IssuedTokens
issued = record {
  access_token = "access";
  access_token_expires_in = pos 300;
  id_token = some "identity";
  refresh_token = some "secret";
  scope = "openid";
  token_type = bearer;
  session_id = "session";
}

-- The second poll comes a second after the first.
slow_down_in_time :
    let first = handle_device_code (draws_at 7) issuer tv naboo (some "D") waiting in
    (first.1 ≡ err (oauth_error authorization_pending "authorization pending"))
    × ((handle_device_code (draws_at 8) issuer tv naboo (some "D") first.0).1
        ≡ err (oauth_error slow_down "slow down"))
unfolding handle_device_code poll too_soon by_status update_device_grant
    get_device_grant_by_device_code save_device_grant lookup insert contains_key
slow_down_in_time = (refl, refl)

handle_device_code-IsApproved_example :
    let after = (handle_device_code (draws_at 7) issuer tv naboo (some "D") stores).0 in
    IsApproved (draws_at 7) tv naboo "D" stores after
    × ((handle_device_code (draws_at 9) issuer tv naboo (some "D") after).1
        ≡ err (oauth_error invalid_grant "unknown device_code"))
unfolding handle_device_code poll too_soon by_status issue_user_tokens mint_user_tokens join
    get_device_grant_by_device_code save_device_grant lookup insert any
handle_device_code-IsApproved_example =
    handle_device_code-IsApproved (draws_at 7) (draws_at 9) issuer tv naboo "D" stores issued refl
