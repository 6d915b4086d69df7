-- ===== src/Storage/Access/Examples.antt =====
-- Runs of the role and group tables.
use geonosis.Base.{
  ℕ, none, some, [], ◌∷◌, lookup, insert, contains_key, any, map, filter_map, nat_eq, string_eq,
  pair_eq, err, ◌≡◌, refl,
}
use geonosis.Storage.Errors.{not_found}
use geonosis.Storage.Access.{
  Access, Role, ids_at, create_role, get_role, delete_role, assign_user_role, list_user_roles,
  list_user_groups, list_group_roles, pushed,
}
use geonosis.Storage.Access.Grants.{Holds}
use geonosis.Storage.Access.Steps.{
  Reachable, start, role_created, user_role_assigned, no_access, Reachable-lists_all,
}
use geonosis.Storage.Access.Cascade.{delete_role-Holds}

abbrev auditor : Role
auditor = record { id = 9; realm_id = 1; client_id = none; name = "auditor" }

-- User 4 is an auditor.
abbrev audited : Access
audited = (assign_user_role 1 4 9 (create_role auditor no_access).0).0

audited-Reachable : Reachable audited
audited-Reachable = user_role_assigned 1 4 9 (role_created auditor start)

user_has_role : list_user_roles 1 4 audited ≡ auditor ∷ []
unfolding list_user_roles assign_user_role create_role pushed lookup insert contains_key any
    filter_map
user_has_role = refl

Reachable-lists_all_example :
    (map (λ r. some r) (list_user_roles 1 4 audited)
      ≡ map (λ id. lookup (1, id) audited.roles) (ids_at (1, 4) audited.user_roles))
    × (map (λ g. some g) (list_user_groups 1 4 audited)
        ≡ map (λ id. lookup (1, id) audited.groups) (ids_at (1, 4) audited.user_groups))
    × (map (λ r. some r) (list_group_roles 1 4 audited)
        ≡ map (λ id. lookup (1, id) audited.roles) (ids_at (1, 4) audited.group_roles))
Reachable-lists_all_example = Reachable-lists_all audited-Reachable 1 4

delete_role-Holds_example :
    let after = (delete_role 1 9 audited).0 in
    (get_role 1 9 after ≡ err not_found)
    × ((key : ℕ × ℕ) → ¬ Holds after.user_roles key 9 × ¬ Holds after.group_roles key 9)
    × ((key : ℕ × ℕ) (other : ℕ)
        → ¬ (other ≡ 9)
        → (Holds audited.user_roles key other → Holds after.user_roles key other)
          × (Holds audited.group_roles key other → Holds after.group_roles key other))
unfolding get_role assign_user_role create_role lookup insert contains_key any
delete_role-Holds_example = delete_role-Holds audited 1 9 auditor refl
