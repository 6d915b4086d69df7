-- ===== src/Server/AutoJoin/Members.antt =====
-- Who is a member after a login, crates/geonosis-server/src/handlers/login_actions.rs.
use geonosis.Base.{
  ℕ, String, true, Option, none, some, lookup, lookup-insert_self, insert_other, nat_eq, string_eq,
  pair_eq, ==_iff, find, find-In, In, Result, ok, err, ok_or, ◌≡◌, refl, sym, ap, ◌∙◌, ◌⊎◌, inl,
  inr, arith, Option-cases, Result-cases,
}
use geonosis.Core.User.{User}
use geonosis.Core.Realm.{Realm}
use geonosis.Core.Organization.{Organization, OrgDomain, OrgMembership}
use geonosis.Storage.Errors.{StorageError, not_found, fetch, values}
use geonosis.Storage.Directory.{Directory, get_user}
use geonosis.Storage.Orgs.{
  Orgs, find_org_by_verified_domain, is_verified_domain, get_organization, get_org_membership,
  upsert_org_membership,
}
use geonosis.Server.AutoJoin.{
  domain_of, login_domain, new_member, join_domain, auto_join_org_by_domain,
}

-- The user has a verified email of a verified domain of the organization, in a realm that lets such
-- users join.
pub record IsEligible (realm : Realm) (user_id : ℕ) (d : Directory) (t : Orgs) (org : Organization)
    : Type 0 where
  pub user : User
  pub email : String
  pub domain : OrgDomain
  pub enabled : realm.auto_join_on_domain_match ≡ true
  pub stored : get_user realm.id user_id d ≡ ok user
  pub verified : user.email_verified ≡ true
  pub is_email : user.email ≡ some email
  pub is_domain : domain_of email ≡ some domain.domain
  pub listed : In domain (values t.org_domains)
  pub in_realm : domain.realm_id ≡ realm.id
  pub domain_verified : domain.verified ≡ true
  pub owner : get_organization realm.id domain.organization_id t ≡ ok org

login_domain-some :
    (realm : Realm) (user_id : ℕ) (d : Directory) (text : String)
    → login_domain realm user_id d ≡ ok (some text)
    → (user : User) × (email : String) × (realm.auto_join_on_domain_match ≡ true)
      × (get_user realm.id user_id d ≡ ok user)
      × (user.email_verified ≡ true)
      × (user.email ≡ some email)
      × (domain_of email ≡ some text)
unfolding login_domain
login_domain-some realm user_id d text h = elim (Result-cases (get_user realm.id user_id d)) [
  | inl (user, stored) ↦ elim (Option-cases user.email) [
    | inl no_email ↦ ground arith
    | inr (email, is_email) ↦
        (user, email, ground arith, stored, ground arith, is_email, ground arith)
  ]
  | inr (e, failed) ↦ ground arith
]

find_org_by_verified_domain-some :
    (realm : ℕ) (text : String) (t : Orgs) (org : Organization)
    → find_org_by_verified_domain realm text t ≡ some org
    → (d : OrgDomain) × In d (values t.org_domains)
      × (is_verified_domain realm text d ≡ true)
      × (lookup (realm, d.organization_id) t.organizations ≡ some org)
unfolding find_org_by_verified_domain
find_org_by_verified_domain-some realm text t org h =
    elim (Option-cases (find (is_verified_domain realm text) (values t.org_domains))) [
      | inl nothing ↦ ground arith
      | inr (d, hit) ↦
          let (listed, passes) =
            find-In (is_verified_domain realm text) (values t.org_domains) d hit in
          (d, listed, passes, ground arith)
    ]

-- A run either leaves the memberships as they are, or adds one that was not there.
abbrev IsRun :
    ℕ → Realm → ℕ → Directory → Orgs → Orgs × Result StorageError (Option String) → Type 0
IsRun now realm user_id d t end =
    ((end.0 ≡ t) × ((alias : String) → ¬ (end.1 ≡ ok (some alias))))
    ⊎ ((org : Organization) × IsEligible realm user_id d t org
        × (get_org_membership org.id user_id t ≡ err not_found)
        × (end ≡ (upsert_org_membership (new_member now realm org user_id) t, ok (some org.alias))))

fetch_err :
    {V : Type 0} (o : Option V) (e : StorageError)
    → ok_or o not_found ≡ err e
    → ok_or o not_found ≡ err not_found
fetch_err none e h = refl
fetch_err (some v) e h = cc

ok_some_inj :
    {E A : Type 0} {a b : A} → ◌≡◌ {A = Result E (Option A)} (ok (some a)) (ok (some b)) → a ≡ b
ok_some_inj q = cc

ok_err : {E A : Type 0} {a : A} {e : E} → ¬ ◌≡◌ {A = Result E A} (ok a) (err e)
ok_err q = cc

join_domain-IsRun :
    (now : ℕ) (realm : Realm) (user_id : ℕ) (d : Directory) (t : Orgs) (text : String)
    → login_domain realm user_id d ≡ ok (some text)
    → IsRun now realm user_id d t (join_domain now realm user_id text t)
unfolding join_domain get_org_membership get_organization
join_domain-IsRun now realm user_id d t text h =
    let (user, email, on, stored, verified, is_email, is_domain) =
      login_domain-some realm user_id d text h in
    elim (Option-cases (find_org_by_verified_domain realm.id text t)) [
      | inl nothing ↦ rw (join_domain, nothing) (inl (refl, λ alias q. cc))
      | inr (org, some_org) ↦ elim (Result-cases (fetch (org.id, user_id) t.org_memberships)) [
        | inl (m, member) ↦
            rw (join_domain, some_org, get_org_membership, member) (inl (refl, λ alias q. cc))
        | inr (e, stranger) ↦
            let (domain, listed, passes, owner) =
              find_org_by_verified_domain-some realm.id text t org some_org in
            let eligible : IsEligible realm user_id d t org = record {
              user = user;
              email = email;
              domain = domain;
              enabled = on;
              stored = stored;
              verified = verified;
              is_email = is_email;
              is_domain = is_domain ∙ ap (λ x. some x) (ground (arith, ==_iff domain.domain text));
              listed = listed;
              in_realm = ground (arith, ==_iff domain.realm_id realm.id);
              domain_verified = ground arith;
              owner = ap (λ o. ok_or o not_found) owner;
            } in
            rw (join_domain, some_org, get_org_membership, stranger)
              (inr (org, eligible, fetch_err _ e stranger, refl))
      ]
    ]

auto_join_org_by_domain-IsRun :
    (now : ℕ) (realm : Realm) (user_id : ℕ) (d : Directory) (t : Orgs)
    → IsRun now realm user_id d t (auto_join_org_by_domain now realm user_id d t)
unfolding auto_join_org_by_domain
auto_join_org_by_domain-IsRun now realm user_id d t =
    elim (Result-cases (login_domain realm user_id d)) [
      | inl (none, q) ↦ rw (auto_join_org_by_domain, q) (inl (refl, λ alias r. cc))
      | inl (some text, q) ↦
          rw (auto_join_org_by_domain, q) (join_domain-IsRun now realm user_id d t text q)
      | inr (e, q) ↦ rw (auto_join_org_by_domain, q) (inl (refl, λ alias r. cc))
    ]

-- A login that reports a joined organization comes from a user with a verified email of a verified
-- domain of it, in a realm that allows this, who was no member and now is an active one without roles;
-- and no login changes a membership that is there.
pub auto_join_org_by_domain-IsEligible :
    (now : ℕ) (realm : Realm) (user_id : ℕ) (d : Directory) (t : Orgs)
    → let end = auto_join_org_by_domain now realm user_id d t in
      ((alias : String)
        → end.1 ≡ ok (some alias)
        → (org : Organization) × IsEligible realm user_id d t org
          × (org.alias ≡ alias)
          × (get_org_membership org.id user_id t ≡ err not_found)
          × (get_org_membership org.id user_id end.0 ≡ ok (new_member now realm org user_id)))
      × ((org user : ℕ) (m : OrgMembership)
          → get_org_membership org user t ≡ ok m
          → get_org_membership org user end.0 ≡ ok m)
unfolding get_org_membership upsert_org_membership
auto_join_org_by_domain-IsEligible now realm user_id d t =
    let end = auto_join_org_by_domain now realm user_id d t in
    elim (auto_join_org_by_domain-IsRun now realm user_id d t) [
      | inl (same, quiet) ↦ (λ alias q. absurd (quiet alias q), λ org user m q. rw (same) q)
      | inr (org, eligible, stranger, q) ↦ (
        λ alias r. (
          org,
          eligible,
          ok_some_inj (sym (ap (λ x. x.1) q) ∙ r),
          stranger,
          ap (λ x. fetch (org.id, user_id) x.0.org_memberships) q
              ∙ ap (λ o. ok_or o not_found)
                  (lookup-insert_self (org.id, user_id) (new_member now realm org user_id)
                    t.org_memberships),
        ),
        λ o user m held.
            ap (λ x. fetch (o, user) x.0.org_memberships) q
            ∙ ap (λ v. ok_or v not_found)
                (insert_other (org.id, user_id) (o, user) (new_member now realm org user_id)
                  t.org_memberships
                  (λ same.
                    ok_err (sym held ∙ sym (ap (λ k. fetch k t.org_memberships) same) ∙ stranger)))
            ∙ held,
      )
    ]
