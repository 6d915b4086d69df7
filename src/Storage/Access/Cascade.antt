-- ===== src/Storage/Access/Cascade.antt =====
-- Deleting a role in crates/geonosis-storage/src/memory.rs.
use geonosis.Base.{
  ℕ, true, not, List, Map, lookup, contains_key, lookup-remove_self, lookup-map_values, map_values,
  is_some, nat_eq, pair_eq, ==_iff, ◌==◌, In, In-select, ok, err, ok_or, ◌≡◌, refl, sym, ap, ◌∙◌,
  arith, subst,
}
use geonosis.Storage.Errors.{not_found}
use geonosis.Storage.Access.{Access, Role, or_empty, ids_at, without, get_role, delete_role}
use geonosis.Storage.Access.Grants.{Holds, Holds-map_values, ids_at-map_values}

Holds-kept :
    (id : ℕ) (g : Map (ℕ × ℕ) (List ℕ)) (key : ℕ × ℕ) (x : ℕ)
    → ¬ (x ≡ id)
    → Holds g key x
    → Holds (map_values (without id) g) key x
unfolding Holds without
Holds-kept id g key x other m =
    subst (In x)
      (sym
        (ap or_empty (lookup-map_values (without id) key g) ∙ ids_at-map_values id (lookup key g)))
      (In-select (λ (r : ℕ). not (r == id)) (ids_at key g) x m (ground (arith, ==_iff x id)))

-- Deleting a stored role takes it from every user and every group that it was assigned to, and takes
-- no other role from anyone.
pub delete_role-Holds :
    (t : Access) (realm id : ℕ) (role : Role)
    → get_role realm id t ≡ ok role
    → let after = (delete_role realm id t).0 in
      (get_role realm id after ≡ err not_found)
      × ((key : ℕ × ℕ) → ¬ Holds after.user_roles key id × ¬ Holds after.group_roles key id)
      × ((key : ℕ × ℕ) (other : ℕ)
          → ¬ (other ≡ id)
          → (Holds t.user_roles key other → Holds after.user_roles key other)
            × (Holds t.group_roles key other → Holds after.group_roles key other))
unfolding get_role delete_role contains_key
delete_role-Holds t realm id role stored =
    let there : is_some (lookup (realm, id) t.roles) ≡ true = ground arith in
    rw (there) (
      ap (λ o. ok_or o not_found) (lookup-remove_self (realm, id) t.roles),
      λ key. (
        λ m. (Holds-map_values id t.user_roles key id m).1 refl,
        λ m. (Holds-map_values id t.group_roles key id m).1 refl,
      ),
      λ key other differs. (
        λ m. Holds-kept id t.user_roles key other differs m,
        λ m. Holds-kept id t.group_roles key other differs m,
      ),
    )
