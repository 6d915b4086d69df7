-- ===== src/Flow/Dsl.antt =====
-- crates/geonosis-flow/src/dsl.rs: the persisted form of a flow.
use geonosis.Base.{
  ℕ, String, Bool, Option, List, false, true, ◌≡◌, ◌↔◌, refl, arith, Eq, ◌==◌, string_eq,
}
use geonosis.Base.Int.{ℤ}
use geonosis.Flow.Json.{Value}
use text.Mathlib.TextEquality.{eq_iff}

-- ULIDs are 128-bit numbers.
abbrev pub NodeId : Type 0
NodeId = ℕ

abbrev pub FlowId : Type 0
FlowId = ℕ

abbrev pub RealmId : Type 0
RealmId = ℕ

pub record StartNode : Type 0 where
  pub require_session : Bool

pub record SuccessNode : Type 0 where
  pub acr : Option String
  pub step_up_required : Bool

pub data NodeKind : Type 0 where
  start : StartNode → NodeKind
  render : String → NodeKind
  authenticator : String → NodeKind
  broker : String → NodeKind
  switch : String → NodeKind
  sub_flow : String → NodeKind
  action : String → NodeKind
  success : SuccessNode → NodeKind
  failure : String → NodeKind

pub data Requirement : Type 0 where
  required optional alternative disabled : Requirement

-- The coordinates are bit patterns of f32.
pub record NodeLayout : Type 0 where
  pub x : ℕ
  pub y : ℕ

pub record FlowNode : Type 0 where
  pub id : NodeId
  pub display_name : String
  pub kind : NodeKind
  pub requirement : Requirement
  pub config : Value
  pub layout : Option NodeLayout

pub data EdgeCondition : Type 0 where
  otherwise : EdgeCondition
  success : EdgeCondition
  failure : EdgeCondition
  status : String → EdgeCondition

pub record Edge : Type 0 where
  pub from : NodeId
  pub to : NodeId
  pub on : EdgeCondition
  pub guard : List (String × Value)

pub record FlowDefinition : Type 0 where
  pub id : FlowId
  pub realm_id : RealmId
  pub alias : String
  pub display_name : String
  pub version : ℤ
  pub start : NodeId
  pub nodes : List FlowNode
  pub edges : List Edge

-- The derived `PartialEq` of `EdgeCondition`.
abbrev pub condition_beq : EdgeCondition → EdgeCondition → Bool
condition_beq otherwise otherwise = true
condition_beq EdgeCondition.success EdgeCondition.success = true
condition_beq EdgeCondition.failure EdgeCondition.failure = true
condition_beq (status a) (status b) = a == b
condition_beq _ _ = false

pub condition_beq_iff : (a b : EdgeCondition) → (condition_beq a b ≡ true) ↔ (a ≡ b)
condition_beq_iff otherwise otherwise = (λ h. refl, λ h. refl)
condition_beq_iff EdgeCondition.success EdgeCondition.success = (λ h. refl, λ h. refl)
condition_beq_iff EdgeCondition.failure EdgeCondition.failure = (λ h. refl, λ h. refl)
condition_beq_iff (status a) (status b) = ground (arith, eq_iff a b)
condition_beq_iff _ _ = (λ h. cc, λ h. cc)

instance abbrev pub condition_eq : Eq EdgeCondition
condition_eq = record { beq = condition_beq; beq_iff = condition_beq_iff }

-- `matches!(kind, NodeKind::Success(_))`
abbrev pub is_success : NodeKind → Bool
is_success (NodeKind.success s) = true
is_success _ = false

-- `matches!(kind, NodeKind::Success(_) | NodeKind::Failure { .. })`
abbrev pub is_terminal : NodeKind → Bool
is_terminal (NodeKind.success s) = true
is_terminal (NodeKind.failure r) = true
is_terminal _ = false
