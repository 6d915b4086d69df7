-- ===== src/Storage/Orgs/Examples.antt =====
-- Runs of the organization tables.
use geonosis.Base.{
  ℕ, String, none, [], true, lookup, insert, contains_key, nat_eq, string_eq, pair_eq, ok, ◌≡◌,
  refl, arith,
}
use geonosis.Core.Organization.{Organization}
use geonosis.Storage.Orgs.{
  Orgs, create_organization, get_organization, get_organization_by_alias, update_organization,
}
use geonosis.Storage.Orgs.Aliases.{
  IsAliased, write-IsAliased, update_organization-get_organization_by_alias,
}

abbrev org_of : ℕ → String → Organization
org_of id alias = record {
  id = id;
  realm_id = 1;
  alias = alias;
  display_name = alias;
  description = none;
  default_idp_alias = none;
  enabled = true;
  created_at = 0;
  updated_at = 0;
}

abbrev no_orgs : Orgs
no_orgs = record {
  organizations = [];
  org_by_alias = [];
  org_domains = [];
  org_memberships = [];
  org_roles = [];
  org_invitations = [];
  org_invitations_by_token = [];
  org_consent_policies = [];
  org_idp_bindings = [];
}

no_orgs-IsAliased : IsAliased no_orgs
unfolding lookup
no_orgs-IsAliased = record { own = λ k x q. cc; listed = λ k x q. cc; live = λ n i q. cc }

abbrev one : Orgs
one = (create_organization (org_of 5 "acme") no_orgs).0

abbrev two : Orgs
two = (create_organization (org_of 6 "naboo") one).0

one-IsAliased : IsAliased one
unfolding get_organization lookup
one-IsAliased = (write-IsAliased no_orgs no_orgs-IsAliased).0 (org_of 5 "acme") refl

two-IsAliased : IsAliased two
unfolding get_organization create_organization lookup insert contains_key
two-IsAliased = (write-IsAliased one one-IsAliased).0 (org_of 6 "naboo") refl

update_organization-get_organization_by_alias_example :
    let after = (update_organization (org_of 6 "acme") two).0 in
    (get_organization_by_alias 1 "acme" after ≡ ok (org_of 6 "acme"))
    × (get_organization 1 5 after ≡ ok (org_of 5 "acme"))
    × ((alias : String) → ¬ (get_organization_by_alias 1 alias after ≡ ok (org_of 5 "acme")))
unfolding get_organization create_organization lookup insert contains_key
update_organization-get_organization_by_alias_example =
    update_organization-get_organization_by_alias two (org_of 6 "acme") (org_of 6 "naboo")
      (org_of 5 "acme") two-IsAliased refl refl (λ q. omega arith) refl
