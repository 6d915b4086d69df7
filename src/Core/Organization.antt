-- ===== src/Core/Organization.antt =====
-- crates/geonosis-core/src/organization.rs: organizations and what belongs to them. The attributes,
-- links and branding of an organization are left out; a secret is its text.
use geonosis.Base.{ℕ, String, Bool, Option, List}

pub record Organization : Type 0 where
  pub id : ℕ
  pub realm_id : ℕ
  pub alias : String
  pub display_name : String
  pub description : Option String
  pub default_idp_alias : Option String
  pub enabled : Bool
  pub created_at : ℕ
  pub updated_at : ℕ

pub record OrgDomain : Type 0 where
  pub id : ℕ
  pub organization_id : ℕ
  pub realm_id : ℕ
  pub domain : String
  pub verified : Bool
  pub verification_token : Option String
  pub verified_at : Option ℕ

pub data MembershipState : Type 0 where
  active invited suspended : MembershipState

pub record OrgMembership : Type 0 where
  pub organization_id : ℕ
  pub realm_id : ℕ
  pub user_id : ℕ
  pub roles : List ℕ
  pub joined_at : ℕ
  pub invited_by : Option ℕ
  pub state : MembershipState

pub record OrgInvitation : Type 0 where
  pub id : ℕ
  pub organization_id : ℕ
  pub realm_id : ℕ
  pub email : String
  pub roles : List ℕ
  pub invited_by : ℕ
  pub token : String
  pub expires_at : ℕ
  pub accepted_at : Option ℕ

pub data OrgPermission : Type 0 where
  admin invite_members manage_domains manage_idps manage_roles manage_consent view_members :
      OrgPermission
  custom : String → OrgPermission

pub record OrgRole : Type 0 where
  pub id : ℕ
  pub organization_id : ℕ
  pub realm_id : ℕ
  pub name : String
  pub description : Option String
  pub permissions : List OrgPermission
  pub built_in : Bool

pub data OrgConsentMode : Type 0 where
  user_decides org_pre_approved org_managed : OrgConsentMode

pub record OrgConsentPolicy : Type 0 where
  pub id : ℕ
  pub organization_id : ℕ
  pub realm_id : ℕ
  pub client_id : ℕ
  pub mode : OrgConsentMode
  pub pre_approved_scopes : List String
  pub blocked_scopes : List String
  pub require_admin_approval : Bool
  pub created_by : ℕ
  pub created_at : ℕ
  pub updated_at : ℕ
