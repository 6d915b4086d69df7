-- ===== src/Storage/Directory/Emails.antt =====
-- The index of users by email in crates/geonosis-storage/src/memory.rs.
use geonosis.Base.{
  ℕ, String, none, some, lookup, insert, remove, contains_key, lookup-insert_self,
  lookup-remove_self, insert_other, subst, remove_other, nat_eq, string_eq, pair_eq, ok, err, ok_or,
  ◌≡◌, refl, sym, ap, ◌∙◌, arith,
}
use geonosis.Core.User.{User}
use geonosis.Storage.Errors.{found, missing, not_found}
use geonosis.Storage.Directory.{
  Directory, create_user, get_user, get_user_by_email, update_user, delete_user, index_email,
  drop_email,
}

-- An update of a stored user leaves the emails as they were indexed: the address that led to the user
-- before leads to the changed user, whatever email the change has set, and an address that was not
-- indexed is not found, the new one included.
pub update_user-get_user_by_email :
    (t : Directory) (old user : User) (email : String)
    → lookup (user.realm_id, email) t.users_by_email ≡ some user.id
    → get_user user.realm_id user.id t ≡ ok old
    → let after = (update_user user t).0 in
      (get_user_by_email user.realm_id email after ≡ ok user)
      × ((other : String)
          → lookup (user.realm_id, other) t.users_by_email ≡ none
          → get_user_by_email user.realm_id other after ≡ err not_found)
unfolding update_user get_user get_user_by_email contains_key
update_user-get_user_by_email t old user email indexed stored =
    let row : lookup (user.realm_id, user.id) t.users ≡ some old = found _ old stored in
    (
      rw (row, indexed, lookup-insert_self (user.realm_id, user.id) user t.users) refl,
      λ other free. rw (row, free) refl,
    )

-- The tables after a user is created and deleted.
abbrev gone : User → Directory → Directory
gone b t = record t {
  users = remove (b.realm_id, b.id) (insert (b.realm_id, b.id) b t.users);
  users_by_username =
      remove (b.realm_id, b.username) (insert (b.realm_id, b.username) b.id t.users_by_username);
  users_by_email = drop_email b.realm_id b (index_email b t.users_by_email);
}

created_then_deleted :
    (t : Directory) (b : User)
    → lookup (b.realm_id, b.username) t.users_by_username ≡ none
    → (delete_user b.realm_id b.id (create_user b t).0).0 ≡ gone b t
unfolding create_user delete_user contains_key
created_then_deleted t b free =
    let made : Directory = record t {
      users = insert (b.realm_id, b.id) b t.users;
      users_by_username = insert (b.realm_id, b.username) b.id t.users_by_username;
      users_by_email = index_email b t.users_by_email;
    } in
    let first : (create_user b t).0 ≡ made = rw (free) refl in
    let second : (delete_user b.realm_id b.id made).0 ≡ gone b t =
      rw (delete_user, lookup-insert_self (b.realm_id, b.id) b t.users) refl in
    ap (λ (d : Directory). (delete_user b.realm_id b.id d).0) first ∙ second

-- When a second user, whose id and username are new to the realm, is created with an email, and deleted
-- again, a user stored in the realm before is still stored and nobody is found by the email there, the
-- stored user included whose email it was.
pub delete_user-get_user_by_email :
    (t : Directory) (a b : User) (email : String)
    → get_user b.realm_id a.id t ≡ ok a
    → get_user b.realm_id b.id t ≡ err not_found
    → lookup (b.realm_id, b.username) t.users_by_username ≡ none
    → b.email ≡ some email
    → let after = (delete_user b.realm_id b.id (create_user b t).0).0 in
      (get_user b.realm_id a.id after ≡ ok a)
      × (get_user_by_email b.realm_id email after ≡ err not_found)
unfolding get_user get_user_by_email index_email drop_email
delete_user-get_user_by_email t a b email stored fresh free is_email =
    let row = found (lookup (b.realm_id, a.id) t.users) a stored in
    let no_row = missing (lookup (b.realm_id, b.id) t.users) fresh in
    let differ : ¬ ◌≡◌ {A = ℕ × ℕ} (b.realm_id, b.id) (b.realm_id, a.id) =
      λ q. ground (arith, row, no_row, ap (λ k. lookup k t.users) q) in
    let users = insert (b.realm_id, b.id) b t.users in
    let kept : lookup (b.realm_id, a.id) (remove (b.realm_id, b.id) users) ≡ some a =
      remove_other (b.realm_id, b.id) (b.realm_id, a.id) users differ
      ∙ insert_other (b.realm_id, b.id) (b.realm_id, a.id) b t.users differ
      ∙ row in
    subst
      (λ (after : Directory).
        (get_user b.realm_id a.id after ≡ ok a)
        × (get_user_by_email b.realm_id email after ≡ err not_found))
      (sym (created_then_deleted t b free))
      (
        ap (λ o. ok_or o not_found) kept,
        rw
            (
              is_email,
              lookup-remove_self (b.realm_id, email)
                  (insert (b.realm_id, email) b.id t.users_by_email),
            )
            refl,
      )
