-- ===== src/Server/AutoJoin.antt =====
-- crates/geonosis-server/src/handlers/login_actions.rs: at login, a user whose verified email is of a
-- verified domain joins the organization of that domain. The clock is an argument.
pub mod Members
use Prim.Native.Char.{code}
use geonosis.Base.{
  ℕ, String, Bool, true, false, not, Option, none, some, List, [], Result, ok, err, if◌then◌else◌,
  nat_beq,
}
use geonosis.Core.User.{User}
use geonosis.Core.Realm.{Realm}
use geonosis.Core.Organization.{Organization, OrgMembership, active}
use geonosis.Storage.Errors.{StorageError}
use geonosis.Storage.Directory.{Directory, get_user}
use geonosis.Storage.Orgs.{
  Orgs, find_org_by_verified_domain, get_org_membership, upsert_org_membership,
}

-- `email.rsplit_once('@').map(|(_, d)| d)`
unfoldable pub domain_of : String → Option String
domain_of String.[] = none
domain_of (String.◌∷◌ c s) =
    let later = domain_of s in
    elim later [ some domain ↦ some domain | none ↦ if nat_beq (code c) b'@' then some s else none ]

-- The guards on the realm and the user, with the domain that passes them.
unfoldable pub login_domain : Realm → ℕ → Directory → Result StorageError (Option String)
login_domain realm user_id d =
    if not realm.auto_join_on_domain_match then ok none else elim (get_user realm.id user_id d) [
      | err e ↦ err e
      | ok user ↦
          if not user.email_verified
          then ok none
          else elim user.email [ none ↦ ok none | some email ↦ ok (domain_of email) ]
    ]

abbrev pub new_member : ℕ → Realm → Organization → ℕ → OrgMembership
new_member now realm org user_id = record {
  organization_id = org.id;
  realm_id = realm.id;
  user_id = user_id;
  roles = [];
  joined_at = now;
  invited_by = none;
  state = active;
}

-- What follows once the domain is known.
unfoldable pub join_domain :
    ℕ → Realm → ℕ → String → Orgs → Orgs × Result StorageError (Option String)
join_domain now realm user_id domain t = elim (find_org_by_verified_domain realm.id domain t) [
  | none ↦ (t, ok none)
  | some org ↦ elim (get_org_membership org.id user_id t) [
    | ok membership ↦ (t, ok none)
    | err e ↦ (upsert_org_membership (new_member now realm org user_id) t, ok (some org.alias))
  ]
]

unfoldable pub auto_join_org_by_domain :
    ℕ → Realm → ℕ → Directory → Orgs → Orgs × Result StorageError (Option String)
auto_join_org_by_domain now realm user_id d t = elim (login_domain realm user_id d) [
  | err e ↦ (t, err e)
  | ok none ↦ (t, ok none)
  | ok (some domain) ↦ join_domain now realm user_id domain t
]
