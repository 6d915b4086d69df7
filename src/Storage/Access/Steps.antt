-- ===== src/Storage/Access/Steps.antt =====
-- The states that the role and group methods of crates/geonosis-storage/src/memory.rs lead to.
use geonosis.Base.{
  ℕ, true, Option, none, some, List, [], ◌∷◌, Map, lookup, contains_key, is_some, nat_eq, pair_eq,
  filter_map, In, map, ◌≡◌, refl, ap, inl, inr,
}
use geonosis.Storage.Access.{
  Access, Role, Group, ids_at, create_role, update_role, delete_role, assign_user_role,
  unassign_user_role, list_user_roles, create_group, update_group, delete_group, assign_user_group,
  unassign_user_group, list_user_groups, assign_group_role, unassign_group_role, list_group_roles,
}
use geonosis.Storage.Access.Grants.{Holds}
use geonosis.Storage.Access.Backed.{
  IsBacked, Stored, create_role-IsBacked, update_role-IsBacked, delete_role-IsBacked,
  assign_user_role-IsBacked, unassign_user_role-IsBacked, create_group-IsBacked,
  update_group-IsBacked, delete_group-IsBacked, assign_user_group-IsBacked,
  unassign_user_group-IsBacked, assign_group_role-IsBacked, unassign_group_role-IsBacked,
}

abbrev pub no_access : Access
no_access = record { roles = []; user_roles = []; groups = []; user_groups = []; group_roles = [] }

pub data Reachable : Access → Type 0 where
  start : Reachable no_access
  role_created : {t : Access} (role : Role) → Reachable t → Reachable (create_role role t).0
  role_updated : {t : Access} (role : Role) → Reachable t → Reachable (update_role role t).0
  role_deleted : {t : Access} (realm id : ℕ) → Reachable t → Reachable (delete_role realm id t).0
  user_role_assigned :
      {t : Access} (realm user id : ℕ)
      → Reachable t
      → Reachable (assign_user_role realm user id t).0
  user_role_unassigned :
      {t : Access} (realm user id : ℕ)
      → Reachable t
      → Reachable (unassign_user_role realm user id t)
  group_created : {t : Access} (group : Group) → Reachable t → Reachable (create_group group t).0
  group_updated : {t : Access} (group : Group) → Reachable t → Reachable (update_group group t).0
  group_deleted : {t : Access} (realm id : ℕ) → Reachable t → Reachable (delete_group realm id t).0
  user_group_assigned :
      {t : Access} (realm user id : ℕ)
      → Reachable t
      → Reachable (assign_user_group realm user id t).0
  user_group_unassigned :
      {t : Access} (realm user id : ℕ)
      → Reachable t
      → Reachable (unassign_user_group realm user id t)
  group_role_assigned :
      {t : Access} (realm group id : ℕ)
      → Reachable t
      → Reachable (assign_group_role realm group id t).0
  group_role_unassigned :
      {t : Access} (realm group id : ℕ)
      → Reachable t
      → Reachable (unassign_group_role realm group id t)

no_access-IsBacked : IsBacked no_access
unfolding Holds lookup
no_access-IsBacked = record {
  user_roles = λ r w x m. absurd m;
  user_groups = λ r w x m. absurd m;
  group_roles = λ r w x m. absurd m;
}

pub Reachable-IsBacked : {t : Access} → Reachable t → IsBacked t
Reachable-IsBacked start = no_access-IsBacked
Reachable-IsBacked (role_created {t} role r) = create_role-IsBacked t (Reachable-IsBacked r) role
Reachable-IsBacked (role_updated {t} role r) = update_role-IsBacked t (Reachable-IsBacked r) role
Reachable-IsBacked (role_deleted {t} realm id r) =
    delete_role-IsBacked t (Reachable-IsBacked r) realm id
Reachable-IsBacked (user_role_assigned {t} realm user id r) =
    assign_user_role-IsBacked t (Reachable-IsBacked r) realm user id
Reachable-IsBacked (user_role_unassigned {t} realm user id r) =
    unassign_user_role-IsBacked t (Reachable-IsBacked r) realm user id
Reachable-IsBacked (group_created {t} group r) =
    create_group-IsBacked t (Reachable-IsBacked r) group
Reachable-IsBacked (group_updated {t} group r) =
    update_group-IsBacked t (Reachable-IsBacked r) group
Reachable-IsBacked (group_deleted {t} realm id r) =
    delete_group-IsBacked t (Reachable-IsBacked r) realm id
Reachable-IsBacked (user_group_assigned {t} realm user id r) =
    assign_user_group-IsBacked t (Reachable-IsBacked r) realm user id
Reachable-IsBacked (user_group_unassigned {t} realm user id r) =
    unassign_user_group-IsBacked t (Reachable-IsBacked r) realm user id
Reachable-IsBacked (group_role_assigned {t} realm group id r) =
    assign_group_role-IsBacked t (Reachable-IsBacked r) realm group id
Reachable-IsBacked (group_role_unassigned {t} realm group id r) =
    unassign_group_role-IsBacked t (Reachable-IsBacked r) realm group id

kept_row :
    {V : Type 0} (o : Option V) (rest : List V) (all : List (Option V))
    → is_some o ≡ true
    → map (λ v. some v) rest ≡ all
    → map (λ v. some v) (elim o [ none ↦ rest | some y ↦ y ∷ rest ]) ≡ o ∷ all
kept_row none rest all h q = cc
kept_row (some v) rest all h q = ap (λ l. some v ∷ l) q

-- A list of ids of stored rows loses none of them.
rows_of :
    {V : Type 0} (rows : Map (ℕ × ℕ) V) (realm : ℕ) (ids : List ℕ)
    → ((x : ℕ) → In x ids → Stored rows (realm, x))
    → map (λ v. some v) (filter_map (λ id. lookup (realm, id) rows) ids)
      ≡ map (λ id. lookup (realm, id) rows) ids
unfolding filter_map contains_key
rows_of rows realm [] h = refl
rows_of rows realm (id ∷ ids) h =
    kept_row (lookup (realm, id) rows) (filter_map (λ x. lookup (realm, x) rows) ids) _
      (h id (inl refl)) (rows_of rows realm ids (λ x m. h x (inr m)))

-- In every state that the methods lead to, the lists of roles and groups that users and groups are
-- given have the stored role or group of each assigned id, in order, and leave out none.
pub Reachable-lists_all :
    {t : Access}
    → Reachable t
    → (realm who : ℕ)
    → (map (λ r. some r) (list_user_roles realm who t)
        ≡ map (λ id. lookup (realm, id) t.roles) (ids_at (realm, who) t.user_roles))
      × (map (λ g. some g) (list_user_groups realm who t)
          ≡ map (λ id. lookup (realm, id) t.groups) (ids_at (realm, who) t.user_groups))
      × (map (λ r. some r) (list_group_roles realm who t)
          ≡ map (λ id. lookup (realm, id) t.roles) (ids_at (realm, who) t.group_roles))
unfolding list_user_roles list_user_groups list_group_roles Holds
Reachable-lists_all {t} r realm who =
    let h = Reachable-IsBacked r in
    (
      rows_of t.roles realm _ (λ x m. h.user_roles realm who x m),
      rows_of t.groups realm _ (λ x m. h.user_groups realm who x m),
      rows_of t.roles realm _ (λ x m. (h.group_roles realm who x m).0),
    )
