-- ===== src/Flow/DryRun.antt =====
-- crates/geonosis-flow/src/dry_run.rs: the walk that the admin surface shows.
pub mod Turns
pub mod Budget
pub mod Agreement
use geonosis.Base.{
  ℕ, zero, suc, String, str_append, Option, none, some, List, [], ◌∷◌, ◌++◌, Result, ok, err, Map,
  lookup, nat_eq,
}
use geonosis.Flow.Json.{Serde}
use geonosis.Flow.Dsl.{NodeId, NodeKind, EdgeCondition, otherwise, status, FlowDefinition}
use geonosis.Flow.State.{FlowContext}
use geonosis.Flow.Compile.{CompiledFlow, CompileError, compile, node, next_with_guard, or_else}

abbrev pub max_steps : ℕ
max_steps = 256

pub data ExpectedOutcome : Type 0 where
  success failure skip : ExpectedOutcome

unfoldable pub as_edge_condition : ExpectedOutcome → EdgeCondition
as_edge_condition ExpectedOutcome.success = EdgeCondition.success
as_edge_condition ExpectedOutcome.failure = EdgeCondition.failure
as_edge_condition ExpectedOutcome.skip = otherwise

pub data Decision : Type 0 where
  taken skipped : Decision

pub record DryRunStep : Type 0 where
  pub node_id : NodeId
  pub kind : String
  pub decision : Decision
  pub reason : String

pub data TerminalState : Type 0 where
  success failure incomplete : TerminalState

pub record DryRunReport : Type 0 where
  pub steps : List DryRunStep
  pub terminal : TerminalState
  pub reason : Option String

-- The `Display` of an id and the derived `Debug` of a condition.
pub record Texts : Type 0 where
  pub id_text : NodeId → String
  pub debug_condition : EdgeCondition → String

abbrev pub node_kind_label : NodeKind → String
node_kind_label (NodeKind.start c) = "start"
node_kind_label (NodeKind.render t) = "render"
node_kind_label (NodeKind.authenticator u) = "authenticator"
node_kind_label (NodeKind.broker i) = "broker"
node_kind_label (NodeKind.switch c) = "switch"
node_kind_label (NodeKind.sub_flow f) = "sub-flow"
node_kind_label (NodeKind.action a) = "action"
node_kind_label (NodeKind.success s) = "success"
node_kind_label (NodeKind.failure r) = "failure"

-- "`" ++ s ++ "`"
quoted : String → String
quoted s = str_append "`" (str_append s "`")

debug_outcome : ExpectedOutcome → String
debug_outcome ExpectedOutcome.success = "Success"
debug_outcome ExpectedOutcome.failure = "Failure"
debug_outcome ExpectedOutcome.skip = "Skip"

pinned_or_assumed : Option ExpectedOutcome → String
unfolding debug_outcome
pinned_or_assumed none = " — assumed Success"
pinned_or_assumed (some o) = str_append " — pinned " (debug_outcome o)

expected_condition : Option ExpectedOutcome → EdgeCondition
unfolding as_edge_condition
expected_condition none = EdgeCondition.success
expected_condition (some o) = as_edge_condition o

-- The edge condition that a node is taken to emit.
unfoldable pub preferred : NodeKind → Option ExpectedOutcome → EdgeCondition
unfolding expected_condition
preferred (NodeKind.switch condition) o = status condition
preferred (NodeKind.authenticator urn) o = expected_condition o
preferred (NodeKind.broker idp_alias) o = expected_condition o
preferred (NodeKind.render template) o = EdgeCondition.success
preferred _ o = otherwise

unfoldable pub outcome_label : NodeKind → Option ExpectedOutcome → String
unfolding quoted pinned_or_assumed
outcome_label (NodeKind.switch condition) o = str_append "switch on " (quoted condition)
outcome_label (NodeKind.authenticator urn) o =
    str_append "authenticator " (str_append (quoted urn) (pinned_or_assumed o))
outcome_label (NodeKind.broker idp_alias) o =
    str_append "broker " (str_append (quoted idp_alias) (pinned_or_assumed o))
outcome_label (NodeKind.render template) o =
    str_append "render " (str_append (quoted template) " — synthetic submit")
outcome_label (NodeKind.action action) o = str_append "action " (quoted action)
outcome_label (NodeKind.sub_flow flow_alias) o = str_append "sub-flow " (quoted flow_alias)
outcome_label _ o = "start node"

-- What one turn of the loop does: the report, or the trace so far and the next node.
pub data Turn : Type 0 where
  report : DryRunReport → Turn
  onward : List DryRunStep → NodeId → Turn

module _ (serde : Serde) (texts : Texts) (flow : CompiledFlow) (context : FlowContext) where
  take_edge : List DryRunStep → NodeId → NodeKind → EdgeCondition → String → Option NodeId → Turn
  unfolding quoted
  take_edge steps id kind on label (some target) =
      onward
        (steps
          ++ record { node_id = id; kind = node_kind_label kind; decision = taken; reason = label }
            ∷ [])
        target
  take_edge steps id kind on label none =
      let why = str_append "no outbound edge from " (
        str_append (quoted (texts.id_text id)) (
          str_append " matches condition "
            (str_append (quoted (texts.debug_condition on)) " with current context"))) in
      report (record {
        steps =
            steps
            ++ record {
              node_id = id;
              kind = node_kind_label kind;
              decision = skipped;
              reason = why;
            }
              ∷ [];
        terminal = incomplete;
        reason = some why;
      })

  arrive : List DryRunStep → NodeId → NodeKind → String → TerminalState → Turn
  arrive steps id kind why terminal = report (record {
    steps =
        steps
        ++ record { node_id = id; kind = node_kind_label kind; decision = taken; reason = why }
          ∷ [];
    terminal = terminal;
    reason = none;
  })

  -- The edge that the walk takes out of a node: the condition's, or else `Otherwise`.
  unfoldable pub next_node : NodeId → EdgeCondition → Option NodeId
  next_node id on =
      or_else (next_with_guard serde flow id on context)
        (next_with_guard serde flow id otherwise context)

  unfoldable pub turn : Option ExpectedOutcome → List DryRunStep → NodeId → NodeKind → Turn
  unfolding take_edge arrive next_node
  turn o steps id (NodeKind.success config) =
      arrive steps id (NodeKind.success config) "reached success terminal" TerminalState.success
  turn o steps id (NodeKind.failure reason) =
      arrive steps id (NodeKind.failure reason) (str_append "reached failure terminal: " reason)
        TerminalState.failure
  turn o steps id kind =
      take_edge steps id kind (preferred kind o) (outcome_label kind o)
        (next_node id (preferred kind o))

  -- The loop over the remaining budget; `none` is the panic of an index out of bounds.
  unfoldable pub walk :
      Map NodeId ExpectedOutcome → ℕ → List DryRunStep → NodeId → Option DryRunReport
  walk expected zero steps current = some (record {
    steps = steps;
    terminal = incomplete;
    reason = some "walker exceeded 256 steps without reaching a terminal";
  })
  walk expected (suc budget) steps current = elim (node flow current) [
    | none ↦ none
    | some n ↦ elim (turn (lookup n.id expected) steps n.id n.kind) [
      | report r ↦ some r
      | onward steps' target ↦ walk expected budget steps' target
    ]
  ]

unfoldable pub dry_run_compiled :
    Serde → Texts → CompiledFlow → FlowContext → Map NodeId ExpectedOutcome → Option DryRunReport
dry_run_compiled serde texts flow context expected =
    walk serde texts flow context expected max_steps [] flow.definition.start

-- `dry_run`: compile and walk.
unfoldable pub dry_run :
    Serde
    → Texts
    → FlowDefinition
    → FlowContext
    → Map NodeId ExpectedOutcome
    → Option (Result CompileError DryRunReport)
dry_run serde texts flow context expected = elim (compile flow) [
  | none ↦ none
  | some (err e) ↦ some (err e)
  | some (ok compiled) ↦ elim (dry_run_compiled serde texts compiled context expected) [
    | none ↦ none
    | some r ↦ some (ok r)
  ]
]
