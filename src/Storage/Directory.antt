-- ===== src/Storage/Directory.antt =====
-- crates/geonosis-storage/src/memory.rs: the tables of realms, users, clients and browser sessions,
-- each method under the lock of the tables. A method that writes returns the new tables. The order in
-- which a list is returned is that of the table here, and unspecified in the source.
pub mod Consistent
pub mod Steps
pub mod Emails
use geonosis.Base.{
  ltb, [], ◌∷◌, ℕ, String, Bool, true, false, Option, none, some, List, [], ◌∷◌, Map, lookup,
  insert, remove, contains_key, nat_eq, string_eq, pair_eq, Result, ok, err, ok_or, if◌then◌else◌,
  ◌==◌, select, take, str_append, ◌>>=◌,
}
use geonosis.Core.User.{User}
use geonosis.Core.Realm.{Realm}
use geonosis.Core.Client.{Client}
use geonosis.Core.Session.{Session}
use geonosis.Storage.Errors.{StorageError, not_found, conflict, Done, fetch, values}

-- The tables of these entities among `Tables`.
pub record Directory : Type 0 where
  pub realms : Map ℕ Realm
  pub realm_by_slug : Map String ℕ
  pub users : Map (ℕ × ℕ) User
  pub users_by_username : Map (ℕ × String) ℕ
  pub users_by_email : Map (ℕ × String) ℕ
  pub password_hashes : Map (ℕ × ℕ) String
  pub clients : Map (ℕ × ℕ) Client
  pub clients_by_client_id : Map (ℕ × String) ℕ
  pub client_secret_hashes : Map (ℕ × ℕ) String
  pub sessions : Map String Session

abbrev pub taken : String → String → StorageError
taken what name = conflict (str_append what (str_append name " taken"))

unfoldable pub create_realm : Realm → Directory → Directory × Done
create_realm realm t =
    if contains_key realm.slug t.realm_by_slug then (t, err (taken "realm slug " realm.slug)) else (
      record t {
        realm_by_slug = insert realm.slug realm.id t.realm_by_slug;
        realms = insert realm.id realm t.realms;
      },
      ok tt,
    )

unfoldable pub get_realm : ℕ → Directory → Result StorageError Realm
get_realm id t = fetch id t.realms

unfoldable pub get_realm_by_slug : String → Directory → Result StorageError Realm
get_realm_by_slug slug t = fetch slug t.realm_by_slug >>= λ id. fetch id t.realms

unfoldable pub update_realm : Realm → Directory → Directory × Done
update_realm realm t =
    if contains_key realm.id t.realms
    then (record t { realms = insert realm.id realm t.realms }, ok tt)
    else (t, err not_found)

unfoldable pub delete_realm : ℕ → Directory → Directory × Done
delete_realm id t = elim (lookup id t.realms) [
  | none ↦ (t, err not_found)
  | some r ↦ (
    record t { realms = remove id t.realms; realm_by_slug = remove r.slug t.realm_by_slug },
    ok tt,
  )
]

unfoldable pub list_realms : Directory → List Realm
list_realms t = values t.realms

-- `if let Some(email) = &user.email { users_by_email.insert(..) }`
unfoldable pub index_email : User → Map (ℕ × String) ℕ → Map (ℕ × String) ℕ
index_email user index = elim user.email [
  | none ↦ index
  | some email ↦ insert (user.realm_id, email) user.id index
]

-- `if let Some(email) = u.email { users_by_email.remove(..) }`
unfoldable pub drop_email : ℕ → User → Map (ℕ × String) ℕ → Map (ℕ × String) ℕ
drop_email realm user index = elim user.email [
  | none ↦ index
  | some email ↦ remove (realm, email) index
]

unfoldable pub create_user : User → Directory → Directory × Done
create_user user t =
    if contains_key (user.realm_id, user.username) t.users_by_username
    then (t, err (taken "username " user.username))
    else (
      record t {
        users_by_email = index_email user t.users_by_email;
        users_by_username = insert (user.realm_id, user.username) user.id t.users_by_username;
        users = insert (user.realm_id, user.id) user t.users;
      },
      ok tt,
    )

unfoldable pub get_user : ℕ → ℕ → Directory → Result StorageError User
get_user realm id t = fetch (realm, id) t.users

unfoldable pub get_user_by_username : ℕ → String → Directory → Result StorageError User
get_user_by_username realm username t =
    fetch (realm, username) t.users_by_username >>= λ id. fetch (realm, id) t.users

unfoldable pub get_user_by_email : ℕ → String → Directory → Result StorageError User
get_user_by_email realm email t =
    fetch (realm, email) t.users_by_email >>= λ id. fetch (realm, id) t.users

unfoldable pub update_user : User → Directory → Directory × Done
update_user user t =
    if contains_key (user.realm_id, user.id) t.users
    then (record t { users = insert (user.realm_id, user.id) user t.users }, ok tt)
    else (t, err not_found)

unfoldable pub list_users : ℕ → ℕ → Directory → List User
list_users realm limit t =
    take limit (values (select (λ (row : (ℕ × ℕ) × User). row.0.0 == realm) t.users))

unfoldable pub delete_user : ℕ → ℕ → Directory → Directory × Done
delete_user realm id t = elim (lookup (realm, id) t.users) [
  | none ↦ (t, err not_found)
  | some u ↦ (
    record t {
      users = remove (realm, id) t.users;
      users_by_username = remove (realm, u.username) t.users_by_username;
      users_by_email = drop_email realm u t.users_by_email;
    },
    ok tt,
  )
]

unfoldable pub store_password_hash : ℕ → ℕ → String → Directory → Directory
store_password_hash realm user_id phc_hash t = record t {
  password_hashes = insert (realm, user_id) phc_hash t.password_hashes;
}

unfoldable pub get_password_hash : ℕ → ℕ → Directory → Result StorageError String
get_password_hash realm user_id t = fetch (realm, user_id) t.password_hashes

unfoldable pub create_client : Client → Directory → Directory × Done
create_client client t =
    if contains_key (client.realm_id, client.client_id) t.clients_by_client_id
    then (t, err (taken "client_id " client.client_id))
    else (
      record t {
        clients_by_client_id =
            insert (client.realm_id, client.client_id) client.id t.clients_by_client_id;
        clients = insert (client.realm_id, client.id) client t.clients;
      },
      ok tt,
    )

unfoldable pub get_client : ℕ → ℕ → Directory → Result StorageError Client
get_client realm id t = fetch (realm, id) t.clients

unfoldable pub get_client_by_client_id : ℕ → String → Directory → Result StorageError Client
get_client_by_client_id realm client_id t =
    fetch (realm, client_id) t.clients_by_client_id >>= λ id. fetch (realm, id) t.clients

unfoldable pub update_client : Client → Directory → Directory × Done
update_client client t =
    if contains_key (client.realm_id, client.id) t.clients
    then (record t { clients = insert (client.realm_id, client.id) client t.clients }, ok tt)
    else (t, err not_found)

unfoldable pub delete_client : ℕ → ℕ → Directory → Directory × Done
delete_client realm id t = elim (lookup (realm, id) t.clients) [
  | none ↦ (t, err not_found)
  | some c ↦ (
    record t {
      clients = remove (realm, id) t.clients;
      clients_by_client_id = remove (realm, c.client_id) t.clients_by_client_id;
    },
    ok tt,
  )
]

unfoldable pub list_clients : ℕ → Directory → List Client
list_clients realm t = values (select (λ (row : (ℕ × ℕ) × Client). row.0.0 == realm) t.clients)

unfoldable pub store_client_secret_hash : ℕ → ℕ → String → Directory → Directory
store_client_secret_hash realm client_id secret_hash t = record t {
  client_secret_hashes = insert (realm, client_id) secret_hash t.client_secret_hashes;
}

unfoldable pub get_client_secret_hash : ℕ → ℕ → Directory → Result StorageError String
get_client_secret_hash realm client_id t = fetch (realm, client_id) t.client_secret_hashes

unfoldable pub create_session : Session → Directory → Directory
create_session session t = record t { sessions = insert session.id session t.sessions }

unfoldable pub get_session : String → Directory → Result StorageError Session
get_session id t = fetch id t.sessions

unfoldable pub update_session : Session → Directory → Directory × Done
update_session session t =
    if contains_key session.id t.sessions
    then (record t { sessions = insert session.id session t.sessions }, ok tt)
    else (t, err not_found)

unfoldable pub delete_session : String → Directory → Directory × Done
delete_session id t =
    if contains_key id t.sessions
    then (record t { sessions = remove id t.sessions }, ok tt)
    else (t, err not_found)

-- `sort_by_key(|r| Reverse(r.last_seen_at))`: a stable sort, the latest first.
unfoldable pub place_session : Session → List Session → List Session
place_session s [] = s ∷ []
place_session s (r ∷ rs) =
    if ltb s.last_seen_at r.last_seen_at then r ∷ place_session s rs else s ∷ r ∷ rs

unfoldable pub sort_sessions : List Session → List Session
sort_sessions [] = []
sort_sessions (s ∷ rs) = place_session s (sort_sessions rs)

unfoldable pub list_sessions : ℕ → ℕ → Directory → List Session
list_sessions realm limit t =
    take limit (sort_sessions (select (λ (s : Session). s.realm_id == realm) (values t.sessions)))
