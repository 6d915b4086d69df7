-- ===== src/Server/Password/Examples.antt =====
-- A run of the password grant for a user that is locked out.
use geonosis.Base.{
  String, Bool, true, false, none, some, Map, [], ◌∷◌, ok, err, any, lookup, insert, nat_eq,
  string_eq, pair_eq, Result, ◌≡◌, refl, ◌⊎◌, ◌==◌,
}
use geonosis.Base.Int.{pos}
use geonosis.Core.Client.{Client, ClientKind}
use geonosis.Core.Realm.{Realm}
use geonosis.Core.User.{User}
use geonosis.Core.Scope.{
  is_scope_char, all_scope_chars, is_ascii_space, goes_on, grow_first, scope_name, tokens_of,
  collect_scopes, parse_scope_string,
}
use geonosis.Storage.Tokens.{empty}
use geonosis.Storage.Directory.Steps.{empty as no_users}
use geonosis.OAuth.Bytes.{as_bytes}
use geonosis.OAuth.Grants.{TokenIssuer}
use geonosis.Server.DevicePoll.{Stores, Draws, issue_user_tokens}
use geonosis.Server.Password.{
  PasswordForm, scope_or_openid, parse_scope, password_form, invalid_login, handle_password,
}
use geonosis.Server.Password.Verified.{IsVerified, handle_password-IsVerified}

abbrev tatooine : Realm
tatooine = record {
  id = 1;
  slug = "tatooine";
  auto_join_on_domain_match = false;
  sso_session_max = 50;
  refresh_token_lifespan = 100;
}

abbrev cli : Client
cli = record {
  id = 2;
  realm_id = 1;
  client_id = "cli";
  kind = ClientKind.public;
  grants = record {
    authorization_code = false;
    refresh_token = true;
    client_credentials = false;
    password = true;
    device_code = false;
    token_exchange = false;
  };
  enabled = true;
}

abbrev signer : TokenIssuer
signer = record {
  mint_access_token = λ realm client subject session scope. ok ("access", pos 300);
  mint_id_token = λ realm client subject session scope nonce acr. ok "identity";
  refresh_hash_key = λ realm. [];
}

abbrev drawn : Draws
drawn = record {
  refresh_token_hash = λ secret key. secret;
  realm_key = λ realm. [];
  from_std = λ d. some d;
  num_seconds = λ a b. pos 1;
  session_id = "session";
  secret = "secret";
  new_family = 8;
  now = 5;
}

abbrev luke : User
luke = record {
  id = 4;
  realm_id = 1;
  username = "luke";
  email = none;
  email_verified = false;
  enabled = true;
  failed_attempts = 9;
  locked_until = some 900;
  last_failed_at = some 4;
}

abbrev users : Stores
users = record {
  tokens = empty;
  directory = record no_users {
    users = insert (1, 4) luke no_users.users;
    users_by_username = insert (1, "luke") 4 no_users.users_by_username;
    password_hashes = insert (1, 4) "#leia" no_users.password_hashes;
  };
}

-- The hash of a text is the text behind a sign.
abbrev equal_texts : String → String → Result String Bool
equal_texts password phc = ok (phc == "#leia")

abbrev fields : Map String String
fields = insert "username" "luke" (insert "password" "leia" [])

abbrev form : PasswordForm
form = record { username = "luke"; password = "leia"; scope = "openid" ∷ [] }

reads : password_form fields ≡ ok form
unfolding password_form lookup insert scope_or_openid parse_scope parse_scope_string collect_scopes
    scope_name tokens_of is_ascii_space any goes_on grow_first as_bytes all_scope_chars
    is_scope_char
reads = refl

handle_password-IsVerified_example :
    ((user : User) × IsVerified equal_texts tatooine form users.directory user
      × (handle_password equal_texts drawn signer cli tatooine fields users
          ≡ issue_user_tokens drawn signer cli tatooine user.id ("openid" ∷ []) users))
    ⊎ ((¬ ((user : User) × IsVerified equal_texts tatooine form users.directory user))
        × (handle_password equal_texts drawn signer cli tatooine fields users
            ≡ (users, err invalid_login)))
handle_password-IsVerified_example =
    handle_password-IsVerified equal_texts drawn signer cli tatooine fields form users reads
