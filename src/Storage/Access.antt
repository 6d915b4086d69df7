-- ===== src/Storage/Access.antt =====
-- crates/geonosis-storage/src/memory.rs: roles, groups, and who holds them, each method under the lock
-- of the tables. What the methods read of a role and a group is in crates/geonosis-core/src/role.rs and
-- group.rs. The order of a list of all roles or groups is that of the table, unspecified in the source.
pub mod Grants
pub mod Backed
pub mod Steps
pub mod Cascade
mod Examples
use geonosis.Base.{
  ℕ, String, Bool, true, false, not, ◌&&◌, Option, none, some, List, [], ◌∷◌, ◌++◌, Map, lookup,
  insert, remove, contains_key, nat_eq, string_eq, pair_eq, option_eq, Result, ok, err, ok_or,
  if◌then◌else◌, ◌==◌, select, any, find, filter_map, map_values,
}
use geonosis.Storage.Errors.{StorageError, not_found, conflict, Done, fetch, values}

pub record Role : Type 0 where
  pub id : ℕ
  pub realm_id : ℕ
  pub client_id : Option ℕ
  pub name : String

pub record Group : Type 0 where
  pub id : ℕ
  pub realm_id : ℕ
  pub path : String

-- The tables of these entities among `Tables`.
pub record Access : Type 0 where
  pub roles : Map (ℕ × ℕ) Role
  pub user_roles : Map (ℕ × ℕ) (List ℕ)
  pub groups : Map (ℕ × ℕ) Group
  pub user_groups : Map (ℕ × ℕ) (List ℕ)
  pub group_roles : Map (ℕ × ℕ) (List ℕ)

-- The test of `create_role` and of `get_role_by_name`.
abbrev pub is_role_named : ℕ → Option ℕ → String → Role → Bool
is_role_named realm client_id name r =
    r.realm_id == realm && r.client_id == client_id && r.name == name

unfoldable pub create_role : Role → Access → Access × Done
create_role role t =
    if contains_key (role.realm_id, role.id) t.roles
    then (t, err (conflict "role exists"))
    else if any (is_role_named role.realm_id role.client_id role.name) (values t.roles)
    then (t, err (conflict "role name taken"))
    else (record t { roles = insert (role.realm_id, role.id) role t.roles }, ok tt)

unfoldable pub get_role : ℕ → ℕ → Access → Result StorageError Role
get_role realm id t = fetch (realm, id) t.roles

unfoldable pub get_role_by_name : ℕ → Option ℕ → String → Access → Result StorageError Role
get_role_by_name realm client_id name t =
    ok_or (find (is_role_named realm client_id name) (values t.roles)) not_found

unfoldable pub list_roles : ℕ → Option ℕ → Access → List Role
list_roles realm client_id t =
    select (λ (r : Role). r.realm_id == realm && r.client_id == client_id) (values t.roles)

unfoldable pub update_role : Role → Access → Access × Done
update_role role t =
    if contains_key (role.realm_id, role.id) t.roles
    then (record t { roles = insert (role.realm_id, role.id) role t.roles }, ok tt)
    else (t, err not_found)

-- `v.retain(|r| *r != id)`
unfoldable pub without : ℕ → List ℕ → List ℕ
without id ids = select (λ r. not (r == id)) ids

unfoldable pub delete_role : ℕ → ℕ → Access → Access × Done
delete_role realm id t =
    if contains_key (realm, id) t.roles
    then (
      record t {
        roles = remove (realm, id) t.roles;
        user_roles = map_values (without id) t.user_roles;
        group_roles = map_values (without id) t.group_roles;
      },
      ok tt,
    )
    else (t, err not_found)

-- `entry(key).or_default()`, or `get(key).unwrap_or_default()`
abbrev pub or_empty : Option (List ℕ) → List ℕ
or_empty none = []
or_empty (some ids) = ids

abbrev pub ids_at : ℕ × ℕ → Map (ℕ × ℕ) (List ℕ) → List ℕ
ids_at key m = or_empty (lookup key m)

-- `if !entry.contains(&id) { entry.push(id) }`
unfoldable pub pushed : ℕ → List ℕ → List ℕ
pushed id ids = if any (λ r. r == id) ids then ids else ids ++ id ∷ []

-- `if let Some(v) = get_mut(key) { v.retain(..) }`
unfoldable pub retained : ℕ × ℕ → ℕ → Map (ℕ × ℕ) (List ℕ) → Map (ℕ × ℕ) (List ℕ)
retained key id m = elim (lookup key m) [ none ↦ m | some ids ↦ insert key (without id ids) m ]

unfoldable pub assign_user_role : ℕ → ℕ → ℕ → Access → Access × Done
assign_user_role realm user_id role_id t =
    if contains_key (realm, role_id) t.roles
    then (
      record t {
        user_roles =
            insert (realm, user_id) (pushed role_id (ids_at (realm, user_id) t.user_roles))
              t.user_roles;
      },
      ok tt,
    )
    else (t, err not_found)

unfoldable pub unassign_user_role : ℕ → ℕ → ℕ → Access → Access
unassign_user_role realm user_id role_id t = record t {
  user_roles = retained (realm, user_id) role_id t.user_roles;
}

unfoldable pub list_user_roles : ℕ → ℕ → Access → List Role
list_user_roles realm user_id t =
    filter_map (λ id. lookup (realm, id) t.roles) (ids_at (realm, user_id) t.user_roles)

unfoldable pub create_group : Group → Access → Access × Done
create_group group t =
    if contains_key (group.realm_id, group.id) t.groups
    then (t, err (conflict "group exists"))
    else if any (λ (g : Group). g.realm_id == group.realm_id && g.path == group.path)
        (values t.groups)
    then (t, err (conflict "group path taken"))
    else (record t { groups = insert (group.realm_id, group.id) group t.groups }, ok tt)

unfoldable pub get_group : ℕ → ℕ → Access → Result StorageError Group
get_group realm id t = fetch (realm, id) t.groups

unfoldable pub get_group_by_path : ℕ → String → Access → Result StorageError Group
get_group_by_path realm path t =
    ok_or (find (λ (g : Group). g.realm_id == realm && g.path == path) (values t.groups)) not_found

unfoldable pub list_groups : ℕ → Access → List Group
list_groups realm t = select (λ (g : Group). g.realm_id == realm) (values t.groups)

unfoldable pub update_group : Group → Access → Access × Done
update_group group t =
    if contains_key (group.realm_id, group.id) t.groups
    then (record t { groups = insert (group.realm_id, group.id) group t.groups }, ok tt)
    else (t, err not_found)

unfoldable pub delete_group : ℕ → ℕ → Access → Access × Done
delete_group realm id t =
    if contains_key (realm, id) t.groups
    then (
      record t {
        groups = remove (realm, id) t.groups;
        user_groups = map_values (without id) t.user_groups;
        group_roles = remove (realm, id) t.group_roles;
      },
      ok tt,
    )
    else (t, err not_found)

unfoldable pub assign_user_group : ℕ → ℕ → ℕ → Access → Access × Done
assign_user_group realm user_id group_id t =
    if contains_key (realm, group_id) t.groups
    then (
      record t {
        user_groups =
            insert (realm, user_id) (pushed group_id (ids_at (realm, user_id) t.user_groups))
              t.user_groups;
      },
      ok tt,
    )
    else (t, err not_found)

unfoldable pub unassign_user_group : ℕ → ℕ → ℕ → Access → Access
unassign_user_group realm user_id group_id t = record t {
  user_groups = retained (realm, user_id) group_id t.user_groups;
}

unfoldable pub list_user_groups : ℕ → ℕ → Access → List Group
list_user_groups realm user_id t =
    filter_map (λ id. lookup (realm, id) t.groups) (ids_at (realm, user_id) t.user_groups)

unfoldable pub assign_group_role : ℕ → ℕ → ℕ → Access → Access × Done
assign_group_role realm group_id role_id t =
    if not (contains_key (realm, group_id) t.groups)
    then (t, err not_found)
    else if not (contains_key (realm, role_id) t.roles)
    then (t, err not_found)
    else (
      record t {
        group_roles =
            insert (realm, group_id) (pushed role_id (ids_at (realm, group_id) t.group_roles))
              t.group_roles;
      },
      ok tt,
    )

unfoldable pub unassign_group_role : ℕ → ℕ → ℕ → Access → Access
unassign_group_role realm group_id role_id t = record t {
  group_roles = retained (realm, group_id) role_id t.group_roles;
}

unfoldable pub list_group_roles : ℕ → ℕ → Access → List Role
list_group_roles realm group_id t =
    filter_map (λ id. lookup (realm, id) t.roles) (ids_at (realm, group_id) t.group_roles)
