-- ===== src/Storage/Orgs/Aliases.antt =====
-- The aliases of organizations in crates/geonosis-storage/src/memory.rs.
use geonosis.Base.{
  subst, ◌⊎◌, ℕ, String, false, none, some, lookup, insert, remove, contains_key,
  lookup-insert_self, insert_other, insert-cases, remove-cases, nat_eq, string_eq, pair_eq, ◌==◌,
  ==_iff, ok, err, ok_or, ◌≡◌, refl, sym, ap, ◌∙◌, arith, inl, inr, Option-cases, Bool-cases,
}
use geonosis.Core.Organization.{Organization}
use geonosis.Storage.Errors.{found, missing, not_found}
use geonosis.Storage.Indexed.{
  Naming, IsIndexed, insert-IsIndexed, replace-IsIndexed, rename-IsIndexed, remove-IsIndexed,
  same_name, name_unique, found_by, some_inj,
}
use geonosis.Storage.Orgs.{
  Orgs, create_organization, get_organization, get_organization_by_alias, update_organization,
  delete_organization, sync_alias,
}

abbrev pub org_naming : Naming (ℕ × ℕ) (ℕ × String) ℕ Organization
org_naming = record {
  key = λ o. (o.realm_id, o.id);
  name = λ o. (o.realm_id, o.alias);
  ident = λ o. o.id;
  at = λ name id. (name.0, id);
  of = λ key. key.1;
  of-key = λ o. refl;
  at-key = λ o. refl;
}

-- Organizations are stored under their ids and found by their aliases.
abbrev pub IsAliased : Orgs → Type 0
IsAliased t = IsIndexed org_naming t.organizations t.org_by_alias

module _ (t : Orgs) (h : IsAliased t) where
  create_organization-IsAliased :
      (org : Organization)
      → lookup (org.realm_id, org.id) t.organizations ≡ none
      → IsAliased (create_organization org t).0
  unfolding create_organization contains_key
  create_organization-IsAliased org fresh =
      elim (Option-cases (lookup (org.realm_id, org.alias) t.org_by_alias)) [
        | inl free ↦
            rw (free) (insert-IsIndexed org_naming t.organizations t.org_by_alias org h fresh free)
        | inr (id, taken) ↦ rw (taken) h
      ]

  -- An alias that a renamed organization does not hold yet is free.
  unheld :
      (org old : Organization)
      → lookup (org.realm_id, org.id) t.organizations ≡ some old
      → (old.alias == org.alias) ≡ false
      → (lookup (org.realm_id, org.alias) t.org_by_alias ≡ none)
        ⊎ (lookup (org.realm_id, org.alias) t.org_by_alias ≡ some org.id)
      → lookup (org.realm_id, org.alias) t.org_by_alias ≡ none
  unheld org old row other (inl free) = free
  unheld org old row other (inr held) =
      let (x, at_row, named) = h.live (org.realm_id, org.alias) org.id held in
      let alias : x.alias ≡ org.alias = ap (λ (k : ℕ × String). k.1) named in
      ground (arith, at_row, row, alias, ==_iff old.alias org.alias)

  update_organization-IsAliased :
      (org : Organization)
      → (lookup (org.realm_id, org.alias) t.org_by_alias ≡ none)
        ⊎ (lookup (org.realm_id, org.alias) t.org_by_alias ≡ some org.id)
      → IsAliased (update_organization org t).0
  unfolding update_organization sync_alias
  update_organization-IsAliased org free =
      elim (Option-cases (lookup (org.realm_id, org.id) t.organizations)) [
        | inl absent ↦ rw (update_organization, absent) h
        | inr (old, row) ↦
            let own : ◌≡◌ {A = ℕ × ℕ} (old.realm_id, old.id) (org.realm_id, org.id) =
              h.own (org.realm_id, org.id) old row in
            elim (Bool-cases (old.alias == org.alias)) [
              | inl same ↦
                  rw (update_organization, row, sync_alias, same)
                    (replace-IsIndexed org_naming t.organizations t.org_by_alias old org h row
                      (same_name (sym own) (sym ((==_iff old.alias org.alias).0 same))))
              | inr other ↦
                  rw (update_organization, row, sync_alias, other)
                    (rename-IsIndexed org_naming t.organizations t.org_by_alias
                      (org.realm_id, old.alias) old org h row (same_name own refl)
                      (unheld org old row other free))
            ]
      ]

  delete_organization-IsAliased : (realm id : ℕ) → IsAliased (delete_organization realm id t).0
  unfolding delete_organization
  delete_organization-IsAliased realm id =
      elim (Option-cases (lookup (realm, id) t.organizations)) [
        | inl absent ↦ rw (delete_organization, absent) h
        | inr (o, row) ↦
            rw (delete_organization, row)
              (remove-IsIndexed org_naming t.organizations t.org_by_alias (realm, id)
                (realm, o.alias) o h row (same_name (h.own (realm, id) o row) refl))
      ]

-- Where organizations are stored under their ids and found by their aliases, so they are after one is
-- created with a new id, updated with an alias that is free or its own, or deleted.
pub write-IsAliased :
    (t : Orgs)
    → IsAliased t
    → ((org : Organization)
        → get_organization org.realm_id org.id t ≡ err not_found
        → IsAliased (create_organization org t).0)
      × ((org : Organization)
          → (lookup (org.realm_id, org.alias) t.org_by_alias ≡ none)
            ⊎ (lookup (org.realm_id, org.alias) t.org_by_alias ≡ some org.id)
          → IsAliased (update_organization org t).0)
      × ((realm id : ℕ) → IsAliased (delete_organization realm id t).0)
unfolding get_organization
write-IsAliased t h = (
  λ org fresh. create_organization-IsAliased t h org (missing _ fresh),
  update_organization-IsAliased t h,
  delete_organization-IsAliased t h,
)

-- The tables after an organization has changed its alias.
abbrev renamed : Organization → Organization → Orgs → Orgs
renamed old org t = record t {
  org_by_alias =
      insert (org.realm_id, org.alias) org.id (remove (org.realm_id, old.alias) t.org_by_alias);
  organizations = insert (org.realm_id, org.id) org t.organizations;
}

update_organization-renamed :
    (t : Orgs) (old org : Organization)
    → lookup (org.realm_id, org.id) t.organizations ≡ some old
    → ¬ (old.alias ≡ org.alias)
    → (update_organization org t).0 ≡ renamed old org t
unfolding update_organization sync_alias
update_organization-renamed t old org row differs =
    let other : (old.alias == org.alias) ≡ false = ground (arith, ==_iff old.alias org.alias) in
    rw (update_organization, row, sync_alias, other) refl

-- Two organizations of one realm that are stored under two ids have two aliases.
aliases_differ :
    (t : Orgs) (realm i j : ℕ) (a b : Organization)
    → IsAliased t
    → lookup (realm, i) t.organizations ≡ some a
    → lookup (realm, j) t.organizations ≡ some b
    → ¬ (i ≡ j)
    → ¬ (a.alias ≡ b.alias)
aliases_differ t realm i j a b h row row' apart q =
    let own = ap (λ (k : ℕ × ℕ). k.0) (h.own (realm, i) a row) in
    let own' = ap (λ (k : ℕ × ℕ). k.0) (h.own (realm, j) b row') in
    let names : ◌≡◌ {A = ℕ × String} (a.realm_id, a.alias) (b.realm_id, b.alias) =
      rw (own, own', q) refl in
    apart (
      ap (λ (k : ℕ × ℕ). k.1)
        (name_unique org_naming t.organizations t.org_by_alias h (realm, i) (realm, j) a b row row'
          names))

-- No alias leads to an organization whose alias another one has taken over.
renamed_hides :
    (t : Orgs) (old mine other : Organization) (text : String)
    → IsAliased t
    → ¬ (mine.id ≡ other.id)
    → other.alias ≡ mine.alias
    → ¬ (get_organization_by_alias mine.realm_id text (renamed old mine t) ≡ ok other)
unfolding get_organization_by_alias
renamed_hides t old mine other text h apart same q =
    let realm = mine.realm_id in
    let kept = remove (realm, old.alias) t.org_by_alias in
    let rows = insert (realm, mine.id) mine t.organizations in
    let (i, listed, row) =
      found_by (lookup (realm, text) (insert (realm, mine.alias) mine.id kept))
        (λ i. lookup (realm, i) rows) other q in
    elim (insert-cases (realm, mine.id) (realm, i) mine other t.organizations row) [
      | inl (at, is_mine) ↦ apart (ap (λ (o : Organization). o.id) is_mine)
      | inr (elsewhere, old_row) ↦
          elim (insert-cases (realm, mine.alias) (realm, text) mine.id i kept listed) [
            | inl (at, is_id) ↦ elsewhere (ap (λ j. (realm, j)) is_id)
            | inr (apart', still) ↦
                let (x, at_row, named) =
                  h.live (realm, text) i
                    (remove-cases (realm, old.alias) (realm, text) i t.org_by_alias still).1 in
                let is_other : x ≡ other = some_inj (sym at_row ∙ old_row) in
                let alias : x.alias ≡ text = ap (λ (k : ℕ × String). k.1) named in
                apart' (
                  ap (λ a. (realm, a))
                    (sym same ∙ ap (λ (o : Organization). o.alias) (sym is_other) ∙ alias))
          ]
    ]

-- When the alias index agrees with the stored organizations and one of them is updated to the alias of
-- another one of its realm, the alias leads to it from then on, and the other one, still stored under
-- that alias, is found by no alias.
pub update_organization-get_organization_by_alias :
    (t : Orgs) (mine old other : Organization)
    → IsAliased t
    → get_organization mine.realm_id mine.id t ≡ ok old
    → get_organization mine.realm_id other.id t ≡ ok other
    → ¬ (mine.id ≡ other.id)
    → other.alias ≡ mine.alias
    → let after = (update_organization mine t).0 in
      (get_organization_by_alias mine.realm_id mine.alias after ≡ ok mine)
      × (get_organization mine.realm_id other.id after ≡ ok other)
      × ((alias : String) → ¬ (get_organization_by_alias mine.realm_id alias after ≡ ok other))
unfolding get_organization get_organization_by_alias
update_organization-get_organization_by_alias t mine old other h stored stored' apart same =
    let row = found (lookup (mine.realm_id, mine.id) t.organizations) old stored in
    let row' = found (lookup (mine.realm_id, other.id) t.organizations) other stored' in
    let differs = aliases_differ t mine.realm_id mine.id other.id old other h row row' apart in
    let kept = remove (mine.realm_id, old.alias) t.org_by_alias in
    subst
      (λ (after : Orgs).
        (get_organization_by_alias mine.realm_id mine.alias after ≡ ok mine)
        × (get_organization mine.realm_id other.id after ≡ ok other)
        × ((alias : String) → ¬ (get_organization_by_alias mine.realm_id alias after ≡ ok other)))
      (sym (update_organization-renamed t old mine row (λ q. differs (q ∙ sym same))))
      (
        rw
            (
              lookup-insert_self (mine.realm_id, mine.alias) mine.id kept,
              lookup-insert_self (mine.realm_id, mine.id) mine t.organizations,
            )
            refl,
        ap (λ o. ok_or o not_found)
            (insert_other (mine.realm_id, mine.id) (mine.realm_id, other.id) mine t.organizations
                (λ q. apart (ap (λ (k : ℕ × ℕ). k.1) q))
              ∙ row'),
        λ alias. renamed_hides t old mine other alias h apart same,
      )
