-- ===== src/Server/Examples.antt =====
-- Runs of the rate limiter, of joining an organization at login and of the name ids of SAML.
use geonosis.Core.User.{User}
use geonosis.Core.Realm.{Realm}
use geonosis.Core.Organization.{Organization, OrgMembership}
use geonosis.Storage.Errors.{not_found}
use geonosis.Storage.Directory.{Directory, create_user, get_user}
use geonosis.Storage.Directory.Steps.{empty as no_users}
use geonosis.Storage.Orgs.{
  Orgs, create_organization, upsert_org_domain, get_org_membership, find_org_by_verified_domain,
}
use geonosis.Server.AutoJoin.{
  auto_join_org_by_domain, new_member, login_domain, join_domain, domain_of,
}
use geonosis.Server.AutoJoin.Members.{IsEligible, auto_join_org_by_domain-IsEligible}
use geonosis.Base.{
  ℕ, String, true, none, some, ok, err, refl, lookup, insert, contains_key, find, nat_eq, string_eq,
  pair_eq, ◌+◌, ◌*◌, ◌≤◌, [], ◌∷◌, ◌≡◌, arith,
}
use geonosis.Storage.Federation.{Federation, get_saml_persistent_id}
use geonosis.Server.NameId.{
  NameIdRequest, minted, row_of, look, settle, resolve_persistent_name_id, resolve_all,
}
use geonosis.Server.NameId.Stable.{resolve_persistent_name_id-again, settle_twice}
use geonosis.Server.RateLimit.{new_bucket}
use geonosis.Server.RateLimit.Admitted.{serve, serve-le}

serve-le_example :
    serve (new_bucket 2 100) (5 ∷ 6 ∷ 20000000 ∷ []) 0 * 1000000000
    ≤ 2 * 1000000000 + 20000000 * 100
serve-le_example =
    serve-le 2 100 20000000 (5 ∷ 6 ∷ 20000000 ∷ []) (omega arith, (omega arith, (omega arith, tt)))

abbrev naboo : Realm
naboo = record {
  id = 1;
  slug = "naboo";
  auto_join_on_domain_match = true;
  sso_session_max = 50;
  refresh_token_lifespan = 100;
}

abbrev padme : User
padme = record {
  id = 4;
  realm_id = 1;
  username = "padme";
  email = some "padme@acme.example";
  email_verified = true;
  enabled = true;
  failed_attempts = 0;
  locked_until = none;
  last_failed_at = none;
}

abbrev users : Directory
users = (create_user padme no_users).0

abbrev acme : Organization
acme = record {
  id = 5;
  realm_id = 1;
  alias = "acme";
  display_name = "Acme";
  description = none;
  default_idp_alias = none;
  enabled = true;
  created_at = 0;
  updated_at = 0;
}

abbrev orgs : Orgs
orgs =
    upsert_org_domain
      (record {
        id = 8;
        organization_id = 5;
        realm_id = 1;
        domain = "acme.example";
        verified = true;
        verification_token = none;
        verified_at = some 0;
      })
      (create_organization acme (record {
        organizations = [];
        org_by_alias = [];
        org_domains = [];
        org_memberships = [];
        org_roles = [];
        org_invitations = [];
        org_invitations_by_token = [];
        org_consent_policies = [];
        org_idp_bindings = [];
      })).0

padme_joins : (auto_join_org_by_domain 3 naboo 4 users orgs).1 ≡ ok (some "acme")
unfolding auto_join_org_by_domain login_domain join_domain domain_of get_user create_user
    find_org_by_verified_domain get_org_membership upsert_org_domain create_organization lookup
    insert contains_key find
padme_joins = refl

auto_join_org_by_domain-IsEligible_example :
    let end = auto_join_org_by_domain 3 naboo 4 users orgs in
    ((alias : String)
      → end.1 ≡ ok (some alias)
      → (org : Organization) × IsEligible naboo 4 users orgs org
        × (org.alias ≡ alias)
        × (get_org_membership org.id 4 orgs ≡ err not_found)
        × (get_org_membership org.id 4 end.0 ≡ ok (new_member 3 naboo org 4)))
    × ((org user : ℕ) (m : OrgMembership)
        → get_org_membership org user orgs ≡ ok m
        → get_org_membership org user end.0 ≡ ok m)
auto_join_org_by_domain-IsEligible_example = auto_join_org_by_domain-IsEligible 3 naboo 4 users orgs

abbrev no_ids : Federation
no_ids = record { idps = []; broker_states = []; broker_links = []; saml_persistent_ids = [] }

-- Two requests that draw different texts.
abbrev early : NameIdRequest
early = record {
  realm_id = 1;
  user_id = 4;
  sp_entity_id = "https://sp.example";
  fresh = "A";
  now = 3;
}

abbrev late : NameIdRequest
late = record {
  realm_id = 1;
  user_id = 4;
  sp_entity_id = "https://sp.example";
  fresh = "B";
  now = 4;
}

resolve_persistent_name_id-again_example :
    let first = resolve_persistent_name_id early no_ids in
    (resolve_persistent_name_id late (resolve_all (late ∷ []) first.0)).1 ≡ first.1
resolve_persistent_name_id-again_example =
    resolve_persistent_name_id-again no_ids early (late ∷ []) "B" 4

settle_twice_example :
    let first_end = settle early (look early no_ids) no_ids in
    let second_end = settle late (look late no_ids) first_end.0 in
    (first_end.1 ≡ minted early)
    × (second_end.1 ≡ minted late)
    × (look early second_end.0 ≡ some (row_of early))
unfolding look get_saml_persistent_id lookup
settle_twice_example = settle_twice no_ids early "B" 4 refl
