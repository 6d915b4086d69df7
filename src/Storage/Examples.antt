-- ===== src/Storage/Examples.antt =====
-- Runs of the directory of users.
use geonosis.Base.{
  ℕ, String, none, some, true, lookup, insert, contains_key, nat_eq, string_eq, pair_eq, ok, err,
  ◌≡◌, refl, ◌↔◌,
}
use geonosis.Core.User.{User}
use geonosis.Core.Realm.{Realm}
use geonosis.Core.Client.{Client}
use geonosis.Storage.Errors.{not_found}
use geonosis.Storage.Directory.{
  Directory, create_user, get_user, get_user_by_username, get_user_by_email, update_user,
  delete_user, get_client, get_client_by_client_id, get_realm, get_realm_by_slug, index_email,
}
use geonosis.Storage.Directory.Steps.{Reachable, start, user_created, empty, Reachable-by_name_iff}
use geonosis.Storage.Directory.Emails.{update_user-get_user_by_email, delete_user-get_user_by_email}

abbrev user_of : ℕ → String → String → User
user_of id username email = record {
  id = id;
  realm_id = 1;
  username = username;
  email = some email;
  email_verified = true;
  enabled = true;
  failed_attempts = 0;
  locked_until = none;
  last_failed_at = none;
}

abbrev ada : User
ada = user_of 4 "ada" "ada@x.org"

abbrev with_ada : Directory
with_ada = (create_user ada empty).0

with_ada-Reachable : Reachable with_ada
unfolding get_user lookup
with_ada-Reachable = user_created ada start refl

Reachable-by_name_iff_example :
    ((u : User)
      → get_user_by_username 1 "ada" with_ada ≡ ok u
        ↔ ((get_user 1 u.id with_ada ≡ ok u) × (u.realm_id ≡ 1) × (u.username ≡ "ada")))
    × ((c : Client)
        → get_client_by_client_id 1 "ada" with_ada ≡ ok c
          ↔ ((get_client 1 c.id with_ada ≡ ok c) × (c.realm_id ≡ 1) × (c.client_id ≡ "ada")))
    × ((r : Realm)
        → get_realm_by_slug "ada" with_ada ≡ ok r
          ↔ ((get_realm r.id with_ada ≡ ok r) × (r.slug ≡ "ada")))
Reachable-by_name_iff_example = Reachable-by_name_iff with_ada-Reachable 1 "ada"

found_by_username : get_user_by_username 1 "ada" with_ada ≡ ok ada
unfolding get_user_by_username create_user lookup insert contains_key
found_by_username = refl

update_user-get_user_by_email_example :
    let after = (update_user (user_of 4 "ada" "ada@y.org") with_ada).0 in
    (get_user_by_email 1 "ada@x.org" after ≡ ok (user_of 4 "ada" "ada@y.org"))
    × ((other : String)
        → lookup (1, other) with_ada.users_by_email ≡ none
        → get_user_by_email 1 other after ≡ err not_found)
unfolding get_user create_user index_email lookup insert contains_key
update_user-get_user_by_email_example =
    update_user-get_user_by_email with_ada ada (user_of 4 "ada" "ada@y.org") "ada@x.org" refl refl

delete_user-get_user_by_email_example :
    let after = (delete_user 1 5 (create_user (user_of 5 "bob" "ada@x.org") with_ada).0).0 in
    (get_user 1 4 after ≡ ok ada) × (get_user_by_email 1 "ada@x.org" after ≡ err not_found)
unfolding get_user create_user index_email lookup insert contains_key
delete_user-get_user_by_email_example =
    delete_user-get_user_by_email with_ada ada (user_of 5 "bob" "ada@x.org") "ada@x.org" refl refl
      refl refl
