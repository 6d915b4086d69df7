-- ===== src/Storage/Directory/Consistent.antt =====
-- The indexes of crates/geonosis-storage/src/memory.rs for realms, users and clients, and the methods
-- that keep them in step with the rows.
use geonosis.Base.{
  ℕ, String, none, some, lookup, contains_key, nat_eq, string_eq, pair_eq, ◌≡◌, refl, sym,
  Option-cases, inl, inr,
}
use geonosis.Core.User.{User}
use geonosis.Core.Realm.{Realm}
use geonosis.Core.Client.{Client}
use geonosis.Storage.Indexed.{
  same_name, Naming, IsIndexed, insert-IsIndexed, replace-IsIndexed, remove-IsIndexed,
}
use geonosis.Storage.Directory.{
  Directory, create_realm, update_realm, delete_realm, create_user, update_user, delete_user,
  create_client, update_client, delete_client,
}

abbrev pub realm_naming : Naming ℕ String ℕ Realm
realm_naming = record {
  key = λ r. r.id;
  name = λ r. r.slug;
  ident = λ r. r.id;
  at = λ slug id. id;
  of = λ id. id;
  of-key = λ r. refl;
  at-key = λ r. refl;
}

abbrev pub user_naming : Naming (ℕ × ℕ) (ℕ × String) ℕ User
user_naming = record {
  key = λ u. (u.realm_id, u.id);
  name = λ u. (u.realm_id, u.username);
  ident = λ u. u.id;
  at = λ name id. (name.0, id);
  of = λ key. key.1;
  of-key = λ u. refl;
  at-key = λ u. refl;
}

abbrev pub client_naming : Naming (ℕ × ℕ) (ℕ × String) ℕ Client
client_naming = record {
  key = λ c. (c.realm_id, c.id);
  name = λ c. (c.realm_id, c.client_id);
  ident = λ c. c.id;
  at = λ name id. (name.0, id);
  of = λ key. key.1;
  of-key = λ c. refl;
  at-key = λ c. refl;
}

-- Every realm, user and client is stored under its id and found by its name, and no name leads astray.
pub record IsConsistent (t : Directory) : Type 0 where
  pub realms : IsIndexed realm_naming t.realms t.realm_by_slug
  pub users : IsIndexed user_naming t.users t.users_by_username
  pub clients : IsIndexed client_naming t.clients t.clients_by_client_id

module _ (t : Directory) (h : IsConsistent t) where
  pub create_user-IsConsistent :
      (user : User)
      → lookup (user.realm_id, user.id) t.users ≡ none
      → IsConsistent (create_user user t).0
  unfolding create_user contains_key
  create_user-IsConsistent user free =
      elim (Option-cases (lookup (user.realm_id, user.username) t.users_by_username)) [
        | inl untaken ↦ rw (untaken) (record {
          realms = h.realms;
          users =
              insert-IsIndexed user_naming t.users t.users_by_username user h.users free untaken;
          clients = h.clients;
        })
        | inr (id, taken) ↦ rw (taken) h
      ]

  pub update_user-IsConsistent :
      (old user : User)
      → lookup (user.realm_id, user.id) t.users ≡ some old
      → user.username ≡ old.username
      → IsConsistent (update_user user t).0
  unfolding update_user contains_key
  update_user-IsConsistent old user row kept =
      let own : ◌≡◌ {A = ℕ × ℕ} (old.realm_id, old.id) (user.realm_id, user.id) =
        h.users.own (user.realm_id, user.id) old row in
      rw (row) (record {
        realms = h.realms;
        users =
            replace-IsIndexed user_naming t.users t.users_by_username old user h.users row
              (same_name (sym own) kept);
        clients = h.clients;
      })

  pub delete_user-IsConsistent : (realm id : ℕ) → IsConsistent (delete_user realm id t).0
  unfolding delete_user
  delete_user-IsConsistent realm id = elim (Option-cases (lookup (realm, id) t.users)) [
    | inl absent ↦ rw (delete_user, absent) h
    | inr (u, row) ↦
        let own : ◌≡◌ {A = ℕ × ℕ} (u.realm_id, u.id) (realm, id) = h.users.own (realm, id) u row in
        rw (delete_user, row)
          (record {
            realms = h.realms;
            users =
                remove-IsIndexed user_naming t.users t.users_by_username (realm, id)
                  (realm, u.username) u h.users row (same_name own refl);
            clients = h.clients;
          })
  ]

  pub create_client-IsConsistent :
      (client : Client)
      → lookup (client.realm_id, client.id) t.clients ≡ none
      → IsConsistent (create_client client t).0
  unfolding create_client contains_key
  create_client-IsConsistent client free =
      elim (Option-cases (lookup (client.realm_id, client.client_id) t.clients_by_client_id)) [
        | inl untaken ↦ rw (untaken) (record {
          realms = h.realms;
          users = h.users;
          clients =
              insert-IsIndexed client_naming t.clients t.clients_by_client_id client h.clients free
                untaken;
        })
        | inr (id, taken) ↦ rw (taken) h
      ]

  pub update_client-IsConsistent :
      (old client : Client)
      → lookup (client.realm_id, client.id) t.clients ≡ some old
      → client.client_id ≡ old.client_id
      → IsConsistent (update_client client t).0
  unfolding update_client contains_key
  update_client-IsConsistent old client row kept =
      let own : ◌≡◌ {A = ℕ × ℕ} (old.realm_id, old.id) (client.realm_id, client.id) =
        h.clients.own (client.realm_id, client.id) old row in
      rw (row) (record {
        realms = h.realms;
        users = h.users;
        clients =
            replace-IsIndexed client_naming t.clients t.clients_by_client_id old client h.clients
              row (same_name (sym own) kept);
      })

  pub delete_client-IsConsistent : (realm id : ℕ) → IsConsistent (delete_client realm id t).0
  unfolding delete_client
  delete_client-IsConsistent realm id = elim (Option-cases (lookup (realm, id) t.clients)) [
    | inl absent ↦ rw (delete_client, absent) h
    | inr (c, row) ↦
        let own : ◌≡◌ {A = ℕ × ℕ} (c.realm_id, c.id) (realm, id) =
          h.clients.own (realm, id) c row in
        rw (delete_client, row)
          (record {
            realms = h.realms;
            users = h.users;
            clients =
                remove-IsIndexed client_naming t.clients t.clients_by_client_id (realm, id)
                  (realm, c.client_id) c h.clients row (same_name own refl);
          })
  ]

  pub create_realm-IsConsistent :
      (realm : Realm) → lookup realm.id t.realms ≡ none → IsConsistent (create_realm realm t).0
  unfolding create_realm contains_key
  create_realm-IsConsistent realm free = elim (Option-cases (lookup realm.slug t.realm_by_slug)) [
    | inl untaken ↦ rw (untaken) (record {
      realms = insert-IsIndexed realm_naming t.realms t.realm_by_slug realm h.realms free untaken;
      users = h.users;
      clients = h.clients;
    })
    | inr (id, taken) ↦ rw (taken) h
  ]

  pub update_realm-IsConsistent :
      (old realm : Realm)
      → lookup realm.id t.realms ≡ some old
      → realm.slug ≡ old.slug
      → IsConsistent (update_realm realm t).0
  unfolding update_realm contains_key
  update_realm-IsConsistent old realm row kept = rw (row) (record {
    realms = replace-IsIndexed realm_naming t.realms t.realm_by_slug old realm h.realms row kept;
    users = h.users;
    clients = h.clients;
  })

  pub delete_realm-IsConsistent : (id : ℕ) → IsConsistent (delete_realm id t).0
  unfolding delete_realm
  delete_realm-IsConsistent id = elim (Option-cases (lookup id t.realms)) [
    | inl absent ↦ rw (delete_realm, absent) h
    | inr (r, row) ↦
        rw (delete_realm, row)
          (record {
            realms =
                remove-IsIndexed realm_naming t.realms t.realm_by_slug id r.slug r h.realms row
                  refl;
            users = h.users;
            clients = h.clients;
          })
  ]
