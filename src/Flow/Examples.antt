-- ===== src/Flow/Examples.antt =====
-- Two flows to run the definitions on: a login with a one-time password, and a flow whose action
-- node leads back to itself.
use geonosis.Base.{
  ℕ, zero, suc, true, false, none, some, [], ◌∷◌, ok, ◌≡◌, refl, lookup, insert, contains_key, find,
  any, all, subst, Result, length, ◌<◌, ◌≤◌, arith, In, inl, inr, nat_eq,
}
use geonosis.Base.Int.{pos, ◌+ℤ◌, wrap_i32}
use geonosis.Flow.Json.{null, Serde}
use geonosis.Flow.Dsl.{
  NodeId, NodeKind, FlowNode, Edge, EdgeCondition, otherwise, FlowDefinition, required,
}
use geonosis.Flow.State.{FlowState, fresh, default_context}
use geonosis.Flow.Guard.{eval_guard}
use geonosis.Flow.Compile.{
  CompiledFlow, compile, assemble, index_nodes, group_edges, push_edge, check_terminals, explore,
  push_targets, node, verdict, next_with_guard, choose,
}
use geonosis.Flow.Compile.Valid.{HasNode, IsValid, IsCompiled}
use geonosis.Flow.Compile.Accepts.{compile-total, compile_sound, compile_complete}
use geonosis.Flow.Executor.{FlowError, StepOutput, Env, StepInput, step, unfinished, finished}
use geonosis.Flow.Executor.Steps.{IsOutcome}
use geonosis.Flow.DryRun.{
  Texts, DryRunReport, TerminalState, taken, dry_run_compiled, walk, turn, next_node, preferred,
  outcome_label,
}
use geonosis.Flow.DryRun.Turns.{answer, IsBroker}
use geonosis.Flow.DryRun.Budget.{dry_run_compiled-total}
use geonosis.Flow.DryRun.Agreement.{dry_run-Confirms, Confirms}
use geonosis.Flow.Executor.Ends.{step-IsOutcome, step-finished, step-unfinished}
use geonosis.Flow.Executor.Choice.{next_with_guard-IsChoice, IsChoice}

abbrev node_of : NodeId → NodeKind → FlowNode
node_of id kind = record {
  id = id;
  display_name = "node";
  kind = kind;
  requirement = required;
  config = null;
  layout = none;
}

abbrev edge_of : NodeId → EdgeCondition → NodeId → Edge
edge_of from on to = record { from = from; to = to; on = on; guard = [] }

abbrev login : FlowDefinition
login = record {
  id = 1;
  realm_id = 1;
  alias = "browser";
  display_name = "Browser";
  version = pos 1;
  start = 0;
  nodes =
      node_of 0 (NodeKind.start (record { require_session = false }))
      ∷ node_of 1 (NodeKind.authenticator "urn:otp")
      ∷ node_of 2 (NodeKind.success (record { acr = none; step_up_required = false }))
      ∷ node_of 3 (NodeKind.failure "denied")
      ∷ [];
  edges =
      edge_of 0 otherwise 1
      ∷ edge_of 1 EdgeCondition.success 2
      ∷ edge_of 1 EdgeCondition.failure 3
      ∷ [];
}

abbrev login_compiled : CompiledFlow
login_compiled = record {
  definition = login;
  by_id = (0, 0) ∷ (1, 1) ∷ (2, 2) ∷ (3, 3) ∷ [];
  outbound =
      (0, edge_of 0 otherwise 1 ∷ [])
      ∷ (1, edge_of 1 EdgeCondition.success 2 ∷ edge_of 1 EdgeCondition.failure 3 ∷ [])
      ∷ [];
}

login-compiles : compile login ≡ some (ok login_compiled)
unfolding compile assemble index_nodes group_edges push_edge check_terminals explore push_targets
    node verdict contains_key lookup insert any
login-compiles = refl

compile-total_example : (r : _) × (compile login ≡ some r)
compile-total_example = compile-total login

compile_sound_example : IsValid login × IsCompiled login login_compiled
compile_sound_example = compile_sound login login_compiled login-compiles

compile_complete_example : (flow : CompiledFlow) × (compile login ≡ some (ok flow))
compile_complete_example =
    compile_complete login (compile_sound login login_compiled login-compiles).0

-- An equality on values that is enough for guards that are empty.
abbrev serde : Serde
serde = record { value_eq = λ a b. true; number_text = λ n. "0" }

login-IsCompiled : IsCompiled login login_compiled
login-IsCompiled = (compile_sound login login_compiled login-compiles).1

next_with_guard-IsChoice_example :
    IsChoice serde login login_compiled login-IsCompiled 1 EdgeCondition.failure default_context
      (next_with_guard serde login_compiled 1 EdgeCondition.failure default_context)
next_with_guard-IsChoice_example =
    next_with_guard-IsChoice serde login login_compiled login-IsCompiled 1 EdgeCondition.failure
      default_context

-- Every authenticator succeeds and adds nothing, and the clock stands at 5.
abbrev env : Env
env = record {
  clock = λ k. 5;
  dispatch = λ k urn s input. ok (answer (lookup s.current_node []));
  parse_user_id = λ text. none;
  new_user_id = 9;
  serde = serde;
}

abbrev login_state : FlowState
unfolding fresh
login_state = fresh 0 1 "token" 1 1 (pos 1) 0 60

login_starts : HasNode login 0
login_starts = (_, inl refl, refl)

-- How far a node of the login is from its ends.
abbrev rank : NodeId → ℕ
rank zero = 2
rank (suc zero) = 1
rank _ = 0

login_down : (e : Edge) → In e login.edges → rank e.to < rank e.from
login_down e (inl p) = subst (λ (x : Edge). rank x.to < rank x.from) p (omega arith)
login_down e (inr (inl p)) = subst (λ (x : Edge). rank x.to < rank x.from) p (omega arith)
login_down e (inr (inr (inl p))) = subst (λ (x : Edge). rank x.to < rank x.from) p (omega arith)
login_down e (inr (inr (inr p))) = absurd p

step-IsOutcome_example :
    IsOutcome login env login_compiled login_state
      (step 3 env login_compiled login_state (StepInput.submit []))
unfolding login_state
step-IsOutcome_example =
    step-IsOutcome login login_compiled 3 env login_state (StepInput.submit []) login-compiles
      login_starts

step-finished_example :
    (s' : FlowState) × (r : Result FlowError StepOutput) × (step 3 env login_compiled login_state
        (StepInput.submit [])
      ≡ finished s' r)
unfolding login_state
step-finished_example =
    step-finished login login_compiled rank 3 env login_state (StepInput.submit []) login-compiles
      login_down login_starts (omega arith)

-- The compiler accepts a flow that never leaves an action node.
abbrev spin : FlowDefinition
spin = record {
  id = 2;
  realm_id = 1;
  alias = "spin";
  display_name = "Spin";
  version = pos 1;
  start = 0;
  nodes =
      node_of 0 (NodeKind.action "audit")
      ∷ node_of 1 (NodeKind.success (record { acr = none; step_up_required = false }))
      ∷ [];
  edges = edge_of 0 otherwise 0 ∷ edge_of 0 EdgeCondition.success 1 ∷ [];
}

abbrev spin_compiled : CompiledFlow
spin_compiled = record {
  definition = spin;
  by_id = (0, 0) ∷ (1, 1) ∷ [];
  outbound = (0, edge_of 0 otherwise 0 ∷ edge_of 0 EdgeCondition.success 1 ∷ []) ∷ [];
}

spin-compiles : compile spin ≡ some (ok spin_compiled)
unfolding compile assemble index_nodes group_edges push_edge check_terminals explore push_targets
    node verdict contains_key lookup insert any
spin-compiles = refl

abbrev spin_state : FlowState
unfolding fresh
spin_state = fresh 0 1 "token" 1 2 (pos 1) 0 60

spin_loops : next_with_guard serde spin_compiled 0 otherwise default_context ≡ some 0
unfolding next_with_guard choose lookup find eval_guard all
spin_loops = refl

spin_node : node spin_compiled 0 ≡ some (node_of 0 (NodeKind.action "audit"))
unfolding node lookup
spin_node = refl

step-unfinished_example : step 1000 env spin_compiled spin_state StepInput.start ≡ unfinished
unfolding spin_state
step-unfinished_example =
    step-unfinished 1000 env spin_compiled spin_state StepInput.start
      (node_of 0 (NodeKind.action "audit")) "audit" (omega arith) spin_node refl spin_loops

abbrev texts : Texts
texts = record { id_text = λ id. "node"; debug_condition = λ on. "condition" }

dry_run_compiled-total_example :
    (r : DryRunReport) × (dry_run_compiled serde texts login_compiled default_context [] ≡ some r)
    × (length r.steps ≤ 256)
dry_run_compiled-total_example =
    dry_run_compiled-total login login_compiled serde texts default_context [] login-compiles

abbrev login_report : DryRunReport
login_report = record {
  steps =
      record { node_id = 0; kind = "start"; decision = taken; reason = "start node" }
      ∷ record {
        node_id = 1;
        kind = "authenticator";
        decision = taken;
        reason = "authenticator `urn:otp` — assumed Success";
      }
      ∷ record {
        node_id = 2;
        kind = "success";
        decision = taken;
        reason = "reached success terminal";
      }
      ∷ [];
  terminal = TerminalState.success;
  reason = none;
}

login_runs : dry_run_compiled serde texts login_compiled default_context [] ≡ some login_report
unfolding dry_run_compiled walk turn next_node preferred outcome_label next_with_guard choose node
    lookup find eval_guard all
login_runs = refl

login_brokerless : (n : FlowNode) → In n login.nodes → ¬ IsBroker n.kind
login_brokerless n (inl p) = subst (λ (x : FlowNode). ¬ IsBroker x.kind) p (λ b. b)
login_brokerless n (inr (inl p)) = subst (λ (x : FlowNode). ¬ IsBroker x.kind) p (λ b. b)
login_brokerless n (inr (inr (inl p))) = subst (λ (x : FlowNode). ¬ IsBroker x.kind) p (λ b. b)
login_brokerless n (inr (inr (inr (inl p)))) =
    subst (λ (x : FlowNode). ¬ IsBroker x.kind) p (λ b. b)
login_brokerless n (inr (inr (inr (inr p)))) = absurd p

dry_run-Confirms_example :
    Confirms TerminalState.success
      (λ t out. step 256 env login_compiled login_state (StepInput.submit []) ≡ finished t (ok out))
unfolding login_state wrap_i32 ◌+ℤ◌
dry_run-Confirms_example =
    dry_run-Confirms login login_compiled texts [] [] env login_state login_report login-compiles
      refl login_brokerless (λ k urn t. refl) refl (omega arith) login_runs
