-- ===== src/Storage/Access/Backed.antt =====
-- Every assignment of crates/geonosis-storage/src/memory.rs is of a role or group that is stored.
use geonosis.Base.{
  ◌&&◌, string_eq, ℕ, Bool, true, false, List, Map, insert, remove, contains_key, lookup-insert,
  lookup-remove, nat_eq, pair_eq, ==_iff, ◌==◌, any, ok, err, ◌≡◌, refl, sym, ap, arith, inl, inr,
  if◌then◌else◌, Bool-cases,
}
use geonosis.Storage.Errors.{Done, conflict, values}
use geonosis.Storage.Access.{
  Access, Role, Group, is_role_named, ids_at, pushed, create_role, update_role, delete_role,
  assign_user_role, unassign_user_role, create_group, update_group, delete_group, assign_user_group,
  unassign_user_group, assign_group_role, unassign_group_role,
}
use geonosis.Storage.Access.Grants.{
  Holds, Holds-map_values, Holds-retained, Holds-pushed, Holds-remove,
}

abbrev pub Stored : {V : Type 0} → Map (ℕ × ℕ) V → ℕ × ℕ → Type 0
Stored rows key = contains_key key rows ≡ true

-- The roles and groups that are assigned exist, and so does a group that roles are assigned to.
pub record IsBacked (t : Access) : Type 0 where
  pub user_roles :
      (realm user id : ℕ) → Holds t.user_roles (realm, user) id → Stored t.roles (realm, id)
  pub user_groups :
      (realm user id : ℕ) → Holds t.user_groups (realm, user) id → Stored t.groups (realm, id)
  pub group_roles :
      (realm group id : ℕ)
      → Holds t.group_roles (realm, group) id
      → Stored t.roles (realm, id) × Stored t.groups (realm, group)

Stored-insert :
    {V : Type 0} (rows : Map (ℕ × ℕ) V) (k j : ℕ × ℕ) (v : V)
    → Stored rows j
    → Stored (insert k v rows) j
unfolding contains_key
Stored-insert rows k j v h = ground (arith, lookup-insert k j v rows)

Stored-remove :
    {V : Type 0} (rows : Map (ℕ × ℕ) V) (k j : ℕ × ℕ)
    → ¬ (k ≡ j)
    → Stored rows j
    → Stored (remove k rows) j
unfolding contains_key
Stored-remove rows k j other h = ground (arith, lookup-remove k j rows, ==_iff k j)

ids_differ : (r s i j : ℕ) → ¬ (j ≡ i) → ¬ ◌≡◌ {A = ℕ × ℕ} (r, i) (s, j)
ids_differ r s i j other q = other (sym (ap (λ (k : ℕ × ℕ). k.1) q))

-- The id that was pushed is stored, and the others were assigned before.
pushed-Stored :
    {V : Type 0} (rows : Map (ℕ × ℕ) V) (g : Map (ℕ × ℕ) (List ℕ)) (realm who id : ℕ)
    → ((r w x : ℕ) → Holds g (r, w) x → Stored rows (r, x))
    → Stored rows (realm, id)
    → (r w x : ℕ) → Holds (insert (realm, who) (pushed id (ids_at (realm, who) g)) g) (r, w) x
    → Stored rows (r, x)
pushed-Stored rows g realm who id h new r w x m = elim (Holds-pushed (realm, who) id g (r, w) x m) [
  | inl old ↦ h r w x old
  | inr (at, same) ↦ rw (← same, ← ap (λ (k : ℕ × ℕ). k.0) at) new
]

-- A guarded write, of which each branch keeps the invariant.
guarded :
    (b : Bool) (t u : Access) (p q : Done)
    → (b ≡ true → IsBacked t)
    → (b ≡ false → IsBacked u)
    → let end : Access × Done = if b then (t, p) else (u, q) in IsBacked end.0
guarded true t u p q h k = h refl
guarded false t u p q h k = k refl

twice_guarded :
    (b c : Bool) (t u : Access) (p q r : Done)
    → IsBacked t
    → IsBacked u
    → let end : Access × Done = if b then (t, p) else if c then (t, q) else (u, r) in IsBacked end.0
twice_guarded true c t u p q r h k = h
twice_guarded false true t u p q r h k = h
twice_guarded false false t u p q r h k = k

module _ (t : Access) (h : IsBacked t) where
  role_written :
      (key : ℕ × ℕ) (role : Role) → IsBacked (record t { roles = insert key role t.roles })
  role_written key role = record {
    user_roles = λ r w x m. Stored-insert t.roles key (r, x) role (h.user_roles r w x m);
    user_groups = h.user_groups;
    group_roles = λ r w x m.
        let (role_there, group_there) = h.group_roles r w x m in
        (Stored-insert t.roles key (r, x) role role_there, group_there);
  }

  group_written :
      (key : ℕ × ℕ) (group : Group) → IsBacked (record t { groups = insert key group t.groups })
  group_written key group = record {
    user_roles = h.user_roles;
    user_groups = λ r w x m. Stored-insert t.groups key (r, x) group (h.user_groups r w x m);
    group_roles = λ r w x m.
        let (role_there, group_there) = h.group_roles r w x m in
        (role_there, Stored-insert t.groups key (r, w) group group_there);
  }

  pub create_role-IsBacked : (role : Role) → IsBacked (create_role role t).0
  unfolding create_role
  create_role-IsBacked role =
      twice_guarded (contains_key (role.realm_id, role.id) t.roles)
        (any (is_role_named role.realm_id role.client_id role.name) (values t.roles)) t _
        (err (conflict "role exists")) (err (conflict "role name taken")) (ok tt) h
        (role_written (role.realm_id, role.id) role)

  pub update_role-IsBacked : (role : Role) → IsBacked (update_role role t).0
  unfolding update_role
  update_role-IsBacked role =
      guarded _ _ t _ _ (λ e. role_written (role.realm_id, role.id) role) (λ e. h)

  pub delete_role-IsBacked : (realm id : ℕ) → IsBacked (delete_role realm id t).0
  unfolding delete_role
  delete_role-IsBacked realm id =
      guarded _ _ t _ _
        (λ e. record {
          user_roles = λ r w x m.
              let (old, other) = Holds-map_values id t.user_roles (r, w) x m in
              Stored-remove t.roles (realm, id) (r, x) (ids_differ realm r id x other)
                (h.user_roles r w x old);
          user_groups = h.user_groups;
          group_roles = λ r w x m.
              let (old, other) = Holds-map_values id t.group_roles (r, w) x m in
              let (role_there, group_there) = h.group_roles r w x old in
              (
                Stored-remove t.roles (realm, id) (r, x) (ids_differ realm r id x other) role_there,
                group_there,
              );
        })
        (λ e. h)

  pub assign_user_role-IsBacked :
      (realm user id : ℕ) → IsBacked (assign_user_role realm user id t).0
  unfolding assign_user_role
  assign_user_role-IsBacked realm user id =
      guarded _ _ t _ _
        (λ there. record {
          user_roles = pushed-Stored t.roles t.user_roles realm user id h.user_roles there;
          user_groups = h.user_groups;
          group_roles = h.group_roles;
        })
        (λ e. h)

  pub unassign_user_role-IsBacked :
      (realm user id : ℕ) → IsBacked (unassign_user_role realm user id t)
  unfolding unassign_user_role
  unassign_user_role-IsBacked realm user id = record {
    user_roles =
        λ r w x m. h.user_roles r w x (Holds-retained (realm, user) id t.user_roles (r, w) x m);
    user_groups = h.user_groups;
    group_roles = h.group_roles;
  }

  pub create_group-IsBacked : (group : Group) → IsBacked (create_group group t).0
  unfolding create_group
  create_group-IsBacked group =
      twice_guarded (contains_key (group.realm_id, group.id) t.groups)
        (any (λ (g : Group). g.realm_id == group.realm_id && g.path == group.path)
          (values t.groups))
        t _ (err (conflict "group exists")) (err (conflict "group path taken")) (ok tt) h
        (group_written (group.realm_id, group.id) group)

  pub update_group-IsBacked : (group : Group) → IsBacked (update_group group t).0
  unfolding update_group
  update_group-IsBacked group =
      guarded _ _ t _ _ (λ e. group_written (group.realm_id, group.id) group) (λ e. h)

  pub delete_group-IsBacked : (realm id : ℕ) → IsBacked (delete_group realm id t).0
  unfolding delete_group
  delete_group-IsBacked realm id =
      guarded _ _ t _ _
        (λ e. record {
          user_roles = h.user_roles;
          user_groups = λ r w x m.
              let (old, other) = Holds-map_values id t.user_groups (r, w) x m in
              Stored-remove t.groups (realm, id) (r, x) (ids_differ realm r id x other)
                (h.user_groups r w x old);
          group_roles = λ r w x m.
              let (other, old) = Holds-remove (realm, id) t.group_roles (r, w) x m in
              let (role_there, group_there) = h.group_roles r w x old in
              (role_there, Stored-remove t.groups (realm, id) (r, w) other group_there);
        })
        (λ e. h)

  pub assign_user_group-IsBacked :
      (realm user id : ℕ) → IsBacked (assign_user_group realm user id t).0
  unfolding assign_user_group
  assign_user_group-IsBacked realm user id =
      guarded _ _ t _ _
        (λ there. record {
          user_roles = h.user_roles;
          user_groups = pushed-Stored t.groups t.user_groups realm user id h.user_groups there;
          group_roles = h.group_roles;
        })
        (λ e. h)

  pub unassign_user_group-IsBacked :
      (realm user id : ℕ) → IsBacked (unassign_user_group realm user id t)
  unfolding unassign_user_group
  unassign_user_group-IsBacked realm user id = record {
    user_roles = h.user_roles;
    user_groups =
        λ r w x m. h.user_groups r w x (Holds-retained (realm, user) id t.user_groups (r, w) x m);
    group_roles = h.group_roles;
  }

  pub assign_group_role-IsBacked :
      (realm group id : ℕ) → IsBacked (assign_group_role realm group id t).0
  unfolding assign_group_role
  assign_group_role-IsBacked realm group id =
      elim (Bool-cases (contains_key (realm, group) t.groups)) [
        | inr no_group ↦ rw (no_group) h
        | inl group_there ↦ rw (group_there) (elim (Bool-cases (contains_key (realm, id) t.roles)) [
          | inr no_role ↦ rw (no_role) h
          | inl role_there ↦ rw (role_there) (record {
            user_roles = h.user_roles;
            user_groups = h.user_groups;
            group_roles = λ r w x m.
                elim (Holds-pushed (realm, group) id t.group_roles (r, w) x m) [
                  | inl old ↦ h.group_roles r w x old
                  | inr (at, same) ↦
                      (rw (← same, ← ap (λ (k : ℕ × ℕ). k.0) at) role_there, rw (← at) group_there)
                ];
          })
        ])
      ]

  pub unassign_group_role-IsBacked :
      (realm group id : ℕ) → IsBacked (unassign_group_role realm group id t)
  unfolding unassign_group_role
  unassign_group_role-IsBacked realm group id = record {
    user_roles = h.user_roles;
    user_groups = h.user_groups;
    group_roles =
        λ r w x m. h.group_roles r w x (Holds-retained (realm, group) id t.group_roles (r, w) x m);
  }
