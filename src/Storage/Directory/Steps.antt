-- ===== src/Storage/Directory/Steps.antt =====
-- What the callers of the directory in crates/geonosis-storage/src/memory.rs can lead it to: new
-- entities have new ids, and an update keeps the username, slug or client id, as the admin handlers
-- see to for users. Writes to the other tables are steps as well.
use geonosis.Base.{
  if_cases, contains_key, ℕ, String, some, Map, [], lookup, nat_eq, string_eq, pair_eq, ok, err,
  ok_or, ◌≡◌, refl, ap, ◌↔◌,
}
use geonosis.Core.User.{User}
use geonosis.Core.Realm.{Realm}
use geonosis.Core.Client.{Client}
use geonosis.Core.Session.{Session}
use geonosis.Storage.Errors.{found, missing, Done, not_found, fetch}
use geonosis.Storage.Indexed.{by_name_iff}
use geonosis.Storage.Directory.{
  Directory, create_realm, get_realm, get_realm_by_slug, update_realm, delete_realm, create_user,
  get_user, get_user_by_username, update_user, delete_user, store_password_hash, create_client,
  get_client, get_client_by_client_id, update_client, delete_client, store_client_secret_hash,
  create_session, update_session, delete_session,
}
use geonosis.Storage.Directory.Consistent.{
  IsConsistent, realm_naming, user_naming, client_naming, create_realm-IsConsistent,
  update_realm-IsConsistent, delete_realm-IsConsistent, create_user-IsConsistent,
  update_user-IsConsistent, delete_user-IsConsistent, create_client-IsConsistent,
  update_client-IsConsistent, delete_client-IsConsistent,
}

abbrev pub empty : Directory
empty = record {
  realms = [];
  realm_by_slug = [];
  users = [];
  users_by_username = [];
  users_by_email = [];
  password_hashes = [];
  clients = [];
  clients_by_client_id = [];
  client_secret_hashes = [];
  sessions = [];
}

pub data Reachable : Directory → Type 0 where
  start : Reachable empty
  realm_created :
      {t : Directory} (realm : Realm)
      → Reachable t
      → get_realm realm.id t ≡ err not_found
      → Reachable (create_realm realm t).0
  realm_updated :
      {t : Directory} (old realm : Realm)
      → Reachable t
      → get_realm realm.id t ≡ ok old
      → realm.slug ≡ old.slug
      → Reachable (update_realm realm t).0
  realm_deleted : {t : Directory} (id : ℕ) → Reachable t → Reachable (delete_realm id t).0
  user_created :
      {t : Directory} (user : User)
      → Reachable t
      → get_user user.realm_id user.id t ≡ err not_found
      → Reachable (create_user user t).0
  user_updated :
      {t : Directory} (old user : User)
      → Reachable t
      → get_user user.realm_id user.id t ≡ ok old
      → user.username ≡ old.username
      → Reachable (update_user user t).0
  user_deleted : {t : Directory} (realm id : ℕ) → Reachable t → Reachable (delete_user realm id t).0
  password_stored :
      {t : Directory} (realm user_id : ℕ) (phc_hash : String)
      → Reachable t
      → Reachable (store_password_hash realm user_id phc_hash t)
  client_created :
      {t : Directory} (client : Client)
      → Reachable t
      → get_client client.realm_id client.id t ≡ err not_found
      → Reachable (create_client client t).0
  client_updated :
      {t : Directory} (old client : Client)
      → Reachable t
      → get_client client.realm_id client.id t ≡ ok old
      → client.client_id ≡ old.client_id
      → Reachable (update_client client t).0
  client_deleted :
      {t : Directory} (realm id : ℕ) → Reachable t → Reachable (delete_client realm id t).0
  secret_stored :
      {t : Directory} (realm client_id : ℕ) (secret_hash : String)
      → Reachable t
      → Reachable (store_client_secret_hash realm client_id secret_hash t)
  session_created :
      {t : Directory} (session : Session) → Reachable t → Reachable (create_session session t)
  session_updated :
      {t : Directory} (session : Session) → Reachable t → Reachable (update_session session t).0
  session_deleted : {t : Directory} (id : String) → Reachable t → Reachable (delete_session id t).0

empty-IsConsistent : IsConsistent empty
unfolding lookup
empty-IsConsistent = record {
  realms = record { own = λ k x q. cc; listed = λ k x q. cc; live = λ n i q. cc };
  users = record { own = λ k x q. cc; listed = λ k x q. cc; live = λ n i q. cc };
  clients = record { own = λ k x q. cc; listed = λ k x q. cc; live = λ n i q. cc };
}

-- The directories differ in the other tables at most.
kept :
    (t u : Directory)
    → IsConsistent t
    → ◌≡◌ {A = Directory} u (record t {
      users_by_email = u.users_by_email;
      password_hashes = u.password_hashes;
      client_secret_hashes = u.client_secret_hashes;
      sessions = u.sessions;
    })
    → IsConsistent u
kept t u h q = rw (q) (record { realms = h.realms; users = h.users; clients = h.clients })

-- In every reachable directory each realm, user and client is stored under its id and listed under its
-- name, and each listed name leads to an entity of that name.
pub Reachable-IsConsistent : {t : Directory} → Reachable t → IsConsistent t
unfolding get_realm get_user get_client store_password_hash store_client_secret_hash create_session
    update_session delete_session
Reachable-IsConsistent start = empty-IsConsistent
Reachable-IsConsistent (realm_created {t} realm r free) =
    create_realm-IsConsistent t (Reachable-IsConsistent r) realm (missing _ free)
Reachable-IsConsistent (realm_updated {t} old realm r row kept) =
    update_realm-IsConsistent t (Reachable-IsConsistent r) old realm (found _ old row) kept
Reachable-IsConsistent (realm_deleted {t} id r) =
    delete_realm-IsConsistent t (Reachable-IsConsistent r) id
Reachable-IsConsistent (user_created {t} user r free) =
    create_user-IsConsistent t (Reachable-IsConsistent r) user (missing _ free)
Reachable-IsConsistent (user_updated {t} old user r row kept) =
    update_user-IsConsistent t (Reachable-IsConsistent r) old user (found _ old row) kept
Reachable-IsConsistent (user_deleted {t} realm id r) =
    delete_user-IsConsistent t (Reachable-IsConsistent r) realm id
Reachable-IsConsistent (password_stored {t} realm user_id phc_hash r) =
    kept t _ (Reachable-IsConsistent r) refl
Reachable-IsConsistent (client_created {t} client r free) =
    create_client-IsConsistent t (Reachable-IsConsistent r) client (missing _ free)
Reachable-IsConsistent (client_updated {t} old client r row kept) =
    update_client-IsConsistent t (Reachable-IsConsistent r) old client (found _ old row) kept
Reachable-IsConsistent (client_deleted {t} realm id r) =
    delete_client-IsConsistent t (Reachable-IsConsistent r) realm id
Reachable-IsConsistent (secret_stored {t} realm client_id secret_hash r) =
    kept t _ (Reachable-IsConsistent r) refl
Reachable-IsConsistent (session_created {t} session r) = kept t _ (Reachable-IsConsistent r) refl
Reachable-IsConsistent (session_updated {t} session r) =
    if_cases (λ (u : Directory × Done). IsConsistent u.0) (contains_key session.id t.sessions) _ _
      (kept t _ (Reachable-IsConsistent r) refl) (Reachable-IsConsistent r)
Reachable-IsConsistent (session_deleted {t} id r) =
    if_cases (λ (u : Directory × Done). IsConsistent u.0) (contains_key id t.sessions) _ _
      (kept t _ (Reachable-IsConsistent r) refl) (Reachable-IsConsistent r)

-- The key and the name of a row, taken apart.
in_realm_iff :
    {V P : Type 0} (rows : Map (ℕ × ℕ) V) (realm : ℕ) (text : String) (r i : ℕ) (n : String) (x : V)
    → P ↔ ((lookup (r, i) rows ≡ some x) × ◌≡◌ {A = ℕ × String} (r, n) (realm, text))
    → P ↔ ((fetch (realm, i) rows ≡ ok x) × (r ≡ realm) × (n ≡ text))
in_realm_iff rows realm text r i n x (there, back) = (
  λ q.
      let (row, named) = there q in
      let own : r ≡ realm = ap (λ (k : ℕ × String). k.0) named in
      (rw (← own) (ap (λ o. ok_or o not_found) row), own, ap (λ (k : ℕ × String). k.1) named),
  λ (row, own, named). back (rw (own) (found _ x row), rw (own, named) refl),
)

-- In every reachable directory a lookup by username, slug or client id gives an entity exactly when
-- that entity is stored, in the realm asked for, under that name.
pub Reachable-by_name_iff :
    {t : Directory}
    → Reachable t
    → (realm : ℕ) (text : String)
    → ((u : User)
        → get_user_by_username realm text t ≡ ok u
          ↔ ((get_user realm u.id t ≡ ok u) × (u.realm_id ≡ realm) × (u.username ≡ text)))
      × ((c : Client)
          → get_client_by_client_id realm text t ≡ ok c
            ↔ ((get_client realm c.id t ≡ ok c) × (c.realm_id ≡ realm) × (c.client_id ≡ text)))
      × ((r : Realm)
          → get_realm_by_slug text t ≡ ok r ↔ ((get_realm r.id t ≡ ok r) × (r.slug ≡ text)))
unfolding get_user_by_username get_user get_client_by_client_id get_client get_realm_by_slug
    get_realm
Reachable-by_name_iff {t} r realm text =
    let h = Reachable-IsConsistent r in
    (
      λ u.
          in_realm_iff t.users realm text u.realm_id u.id u.username u
            (by_name_iff user_naming t.users t.users_by_username (realm, text) u h.users),
      λ c.
          in_realm_iff t.clients realm text c.realm_id c.id c.client_id c
            (by_name_iff client_naming t.clients t.clients_by_client_id (realm, text) c h.clients),
      λ s.
          let (there, back) = by_name_iff realm_naming t.realms t.realm_by_slug text s h.realms in
          (
            λ q. (ap (λ o. ok_or o not_found) (there q).0, (there q).1),
            λ (row, named). back (found _ s row, named),
          ),
    )
