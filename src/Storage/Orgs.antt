-- ===== src/Storage/Orgs.antt =====
-- crates/geonosis-storage/src/memory.rs: organizations with their domains, members, roles, invitations,
-- consent policies and identity providers, each method under the lock of the tables. The order of the
-- entries that a list or a search goes through is that of the table, unspecified in the source.
pub mod Aliases
pub mod Cascade
mod Examples
use geonosis.Base.{
  ℕ, String, Bool, true, false, not, ◌&&◌, Option, none, some, List, [], ◌∷◌, Map, lookup, insert,
  remove, contains_key, nat_eq, string_eq, pair_eq, Result, ok, err, ok_or, if◌then◌else◌, ◌==◌,
  select, find, ◌>>=◌,
}
use geonosis.Base.Int.{ℤ}
use geonosis.Core.Organization.{
  Organization, OrgDomain, OrgMembership, OrgRole, OrgInvitation, OrgConsentPolicy,
}
use geonosis.Storage.Errors.{StorageError, not_found, conflict, Done, fetch, values}

-- `OrgIdpBinding` of crates/geonosis-storage/src/traits.rs
pub record OrgIdpBinding : Type 0 where
  pub organization_id : ℕ
  pub realm_id : ℕ
  pub idp_alias : String
  pub priority : ℤ
  pub enabled : Bool

-- The tables of these entities among `Tables`.
pub record Orgs : Type 0 where
  pub organizations : Map (ℕ × ℕ) Organization
  pub org_by_alias : Map (ℕ × String) ℕ
  pub org_domains : Map (ℕ × String) OrgDomain
  pub org_memberships : Map (ℕ × ℕ) OrgMembership
  pub org_roles : Map (ℕ × ℕ) OrgRole
  pub org_invitations : Map ℕ OrgInvitation
  pub org_invitations_by_token : Map String ℕ
  pub org_consent_policies : Map (ℕ × ℕ) OrgConsentPolicy
  pub org_idp_bindings : Map (ℕ × String) OrgIdpBinding

unfoldable pub create_organization : Organization → Orgs → Orgs × Done
create_organization org t =
    if contains_key (org.realm_id, org.alias) t.org_by_alias
    then (t, err (conflict "org alias taken"))
    else (
      record t {
        org_by_alias = insert (org.realm_id, org.alias) org.id t.org_by_alias;
        organizations = insert (org.realm_id, org.id) org t.organizations;
      },
      ok tt,
    )

unfoldable pub get_organization : ℕ → ℕ → Orgs → Result StorageError Organization
get_organization realm id t = fetch (realm, id) t.organizations

unfoldable pub get_organization_by_alias : ℕ → String → Orgs → Result StorageError Organization
get_organization_by_alias realm alias t =
    fetch (realm, alias) t.org_by_alias >>= λ id. fetch (realm, id) t.organizations

unfoldable pub list_organizations : ℕ → Orgs → List Organization
list_organizations realm t =
    select (λ (o : Organization). o.realm_id == realm) (values t.organizations)

-- `if a != org.alias { org_by_alias.remove(..); org_by_alias.insert(..) }`
unfoldable pub sync_alias : Organization → String → Map (ℕ × String) ℕ → Map (ℕ × String) ℕ
sync_alias org old_alias index =
    if old_alias == org.alias
    then index
    else insert (org.realm_id, org.alias) org.id (remove (org.realm_id, old_alias) index)

unfoldable pub update_organization : Organization → Orgs → Orgs × Done
update_organization org t = elim (lookup (org.realm_id, org.id) t.organizations) [
  | none ↦ (t, err not_found)
  | some old ↦ (
    record t {
      org_by_alias = sync_alias org old.alias t.org_by_alias;
      organizations = insert (org.realm_id, org.id) org t.organizations;
    },
    ok tt,
  )
]

-- `retain(|(oid, _), _| *oid != id)`
unfoldable pub retain_others : {K V : Type 0} → ℕ → Map (ℕ × K) V → Map (ℕ × K) V
retain_others id [] = []
retain_others id ((k, v) ∷ m) =
    if k.0 == id then retain_others id m else (k, v) ∷ retain_others id m

unfoldable pub delete_organization : ℕ → ℕ → Orgs → Orgs × Done
delete_organization realm id t = elim (lookup (realm, id) t.organizations) [
  | none ↦ (t, err not_found)
  | some o ↦ (
    record t {
      organizations = remove (realm, id) t.organizations;
      org_by_alias = remove (realm, o.alias) t.org_by_alias;
      org_domains = retain_others id t.org_domains;
      org_memberships = retain_others id t.org_memberships;
      org_consent_policies = retain_others id t.org_consent_policies;
      org_idp_bindings = retain_others id t.org_idp_bindings;
    },
    ok tt,
  )
]

unfoldable pub upsert_org_domain : OrgDomain → Orgs → Orgs
upsert_org_domain domain t = record t {
  org_domains = insert (domain.organization_id, domain.domain) domain t.org_domains;
}

unfoldable pub list_org_domains : ℕ → ℕ → Orgs → List OrgDomain
list_org_domains realm organization_id t =
    select (λ (d : OrgDomain). d.organization_id == organization_id && d.realm_id == realm)
      (values t.org_domains)

-- The argument `_realm` of these methods is not read.
unfoldable pub delete_org_domain : ℕ → String → Orgs → Orgs × Done
delete_org_domain organization_id domain t =
    if contains_key (organization_id, domain) t.org_domains
    then (record t { org_domains = remove (organization_id, domain) t.org_domains }, ok tt)
    else (t, err not_found)

abbrev pub is_verified_domain : ℕ → String → OrgDomain → Bool
is_verified_domain realm domain d = d.realm_id == realm && d.domain == domain && d.verified

unfoldable pub find_org_by_verified_domain : ℕ → String → Orgs → Option Organization
find_org_by_verified_domain realm domain t =
    elim (find (is_verified_domain realm domain) (values t.org_domains)) [
      | none ↦ none
      | some d ↦ lookup (realm, d.organization_id) t.organizations
    ]

unfoldable pub upsert_org_membership : OrgMembership → Orgs → Orgs
upsert_org_membership membership t = record t {
  org_memberships =
      insert (membership.organization_id, membership.user_id) membership t.org_memberships;
}

unfoldable pub get_org_membership : ℕ → ℕ → Orgs → Result StorageError OrgMembership
get_org_membership organization_id user_id t = fetch (organization_id, user_id) t.org_memberships

unfoldable pub list_org_memberships : ℕ → Orgs → List OrgMembership
list_org_memberships organization_id t =
    select (λ (m : OrgMembership). m.organization_id == organization_id) (values t.org_memberships)

unfoldable pub list_user_orgs : ℕ → ℕ → Orgs → List OrgMembership
list_user_orgs realm user_id t =
    select (λ (m : OrgMembership). m.user_id == user_id && m.realm_id == realm)
      (values t.org_memberships)

unfoldable pub delete_org_membership : ℕ → ℕ → Orgs → Orgs × Done
delete_org_membership organization_id user_id t =
    if contains_key (organization_id, user_id) t.org_memberships
    then (record t { org_memberships = remove (organization_id, user_id) t.org_memberships }, ok tt)
    else (t, err not_found)

unfoldable pub create_org_role : OrgRole → Orgs → Orgs × Done
create_org_role role t =
    if contains_key (role.realm_id, role.id) t.org_roles
    then (t, err (conflict "org role exists"))
    else (record t { org_roles = insert (role.realm_id, role.id) role t.org_roles }, ok tt)

unfoldable pub get_org_role : ℕ → ℕ → Orgs → Result StorageError OrgRole
get_org_role realm id t = fetch (realm, id) t.org_roles

unfoldable pub list_org_roles : ℕ → ℕ → Orgs → List OrgRole
list_org_roles realm organization_id t =
    select (λ (r : OrgRole). r.realm_id == realm && r.organization_id == organization_id)
      (values t.org_roles)

unfoldable pub update_org_role : OrgRole → Orgs → Orgs × Done
update_org_role role t =
    if contains_key (role.realm_id, role.id) t.org_roles
    then (record t { org_roles = insert (role.realm_id, role.id) role t.org_roles }, ok tt)
    else (t, err not_found)

unfoldable pub delete_org_role : ℕ → ℕ → Orgs → Orgs × Done
delete_org_role realm id t =
    if contains_key (realm, id) t.org_roles
    then (record t { org_roles = remove (realm, id) t.org_roles }, ok tt)
    else (t, err not_found)

unfoldable pub create_org_invitation : OrgInvitation → Orgs → Orgs × Done
create_org_invitation invitation t =
    if contains_key invitation.token t.org_invitations_by_token
    then (t, err (conflict "invitation token reuse"))
    else (
      record t {
        org_invitations_by_token = insert invitation.token invitation.id t.org_invitations_by_token;
        org_invitations = insert invitation.id invitation t.org_invitations;
      },
      ok tt,
    )

unfoldable pub get_org_invitation_by_token : String → Orgs → Result StorageError OrgInvitation
get_org_invitation_by_token token t =
    fetch token t.org_invitations_by_token >>= λ id. fetch id t.org_invitations

unfoldable pub list_org_invitations : ℕ → ℕ → Orgs → List OrgInvitation
list_org_invitations realm organization_id t =
    select (λ (i : OrgInvitation). i.realm_id == realm && i.organization_id == organization_id)
      (values t.org_invitations)

-- The clock is an argument.
unfoldable pub mark_org_invitation_accepted : ℕ → ℕ → Orgs → Orgs × Done
mark_org_invitation_accepted now id t = elim (lookup id t.org_invitations) [
  | none ↦ (t, err not_found)
  | some i ↦ (
    record t {
      org_invitations = insert id (record i { accepted_at = some now }) t.org_invitations;
    },
    ok tt,
  )
]

unfoldable pub delete_org_invitation : ℕ → Orgs → Orgs × Done
delete_org_invitation id t = elim (lookup id t.org_invitations) [
  | none ↦ (t, err not_found)
  | some i ↦ (
    record t {
      org_invitations = remove id t.org_invitations;
      org_invitations_by_token = remove i.token t.org_invitations_by_token;
    },
    ok tt,
  )
]

unfoldable pub upsert_org_consent_policy : OrgConsentPolicy → Orgs → Orgs
upsert_org_consent_policy policy t = record t {
  org_consent_policies =
      insert (policy.organization_id, policy.client_id) policy t.org_consent_policies;
}

unfoldable pub get_org_consent_policy : ℕ → ℕ → Orgs → Option OrgConsentPolicy
get_org_consent_policy organization_id client_id t =
    lookup (organization_id, client_id) t.org_consent_policies

unfoldable pub list_org_consent_policies : ℕ → Orgs → List OrgConsentPolicy
list_org_consent_policies organization_id t =
    select (λ (p : OrgConsentPolicy). p.organization_id == organization_id)
      (values t.org_consent_policies)

unfoldable pub delete_org_consent_policy : ℕ → ℕ → Orgs → Orgs × Done
delete_org_consent_policy organization_id client_id t =
    if contains_key (organization_id, client_id) t.org_consent_policies
    then (
      record t {
        org_consent_policies = remove (organization_id, client_id) t.org_consent_policies;
      },
      ok tt,
    )
    else (t, err not_found)

unfoldable pub upsert_org_idp_binding : OrgIdpBinding → Orgs → Orgs
upsert_org_idp_binding binding t = record t {
  org_idp_bindings = insert (binding.organization_id, binding.idp_alias) binding t.org_idp_bindings;
}

unfoldable pub list_org_idp_bindings : ℕ → Orgs → List OrgIdpBinding
list_org_idp_bindings organization_id t =
    select (λ (b : OrgIdpBinding). b.organization_id == organization_id) (values t.org_idp_bindings)

unfoldable pub delete_org_idp_binding : ℕ → String → Orgs → Orgs × Done
delete_org_idp_binding organization_id idp_alias t =
    if contains_key (organization_id, idp_alias) t.org_idp_bindings
    then (
      record t { org_idp_bindings = remove (organization_id, idp_alias) t.org_idp_bindings },
      ok tt,
    )
    else (t, err not_found)
