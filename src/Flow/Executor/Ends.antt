-- ===== src/Flow/Executor/Ends.antt =====
-- When a call of `step` returns, crates/geonosis-flow/src/executor.rs.
use geonosis.Base.{
  ℕ, zero, suc, String, some, Result, ok, err, ◌≡◌, refl, arith, In, ltb, Bool-cases, ◌<◌, ◌≤◌, inl,
  inr, le→ltb,
}
use geonosis.Flow.Dsl.{NodeId, FlowNode, FlowDefinition, Edge, NodeKind, otherwise}
use geonosis.Flow.State.{FlowState}
use geonosis.Flow.Compile.{CompiledFlow, node, compile, next_with_guard}
use geonosis.Flow.Compile.Reach.{here}
use geonosis.Flow.Compile.Valid.{HasNode}
use geonosis.Flow.Compile.Accepts.{compile_sound}
use geonosis.Flow.Executor.{
  Env, later, StepInput, StepOutput, FlowError, unfinished, finished, visit, run, step, expired,
  next_on, advance,
}
use geonosis.Flow.Executor.Rounds.{IsKept-refl}
use geonosis.Flow.Executor.Steps.{IsOutcome, run-IsOutcome, run-finished, touched}

-- Whatever the fuel, a step of a compiled flow from one of its nodes never indexes out of bounds.
-- Where it returns, it has walked along edges of the definition, has only added to the history and
-- kept the flow's identity, and it reports a subject only at a success node, the one that the
-- context resolves to.
pub step-IsOutcome :
    (def : FlowDefinition) (flow : CompiledFlow) (fuel : ℕ) (env : Env) (s : FlowState)
    (input : StepInput)
    → compile def ≡ some (ok flow)
    → HasNode def s.current_node
    → IsOutcome def env flow s (step fuel env flow s input)
unfolding step
step-IsOutcome def flow fuel env s input h known =
    elim (Bool-cases (ltb s.expires_at (env.clock 0))) [
      | inl late ↦ rw (late, step) (IsKept-refl s, here, λ subject e. absurd (ground arith))
      | inr in_time ↦
          let (v, c) = compile_sound def flow h in
          rw (in_time, step)
            (touched def env flow s (env.clock 1) (run fuel (later (later env)) flow _ input) (
              run-IsOutcome def flow v c fuel (later (later env))
                (record s { last_activity_at = env.clock 1 }) input known))
    ]

-- A step of a compiled flow whose edges all lead downwards in some rank, from a state that stands at a
-- node of its definition, returns, given more fuel than the rank of that node.
pub step-finished :
    (def : FlowDefinition) (flow : CompiledFlow) (rank : NodeId → ℕ) (fuel : ℕ) (env : Env)
    (s : FlowState) (input : StepInput)
    → compile def ≡ some (ok flow)
    → ((e : Edge) → In e def.edges → rank e.to < rank e.from)
    → HasNode def s.current_node
    → rank s.current_node < fuel
    → (s' : FlowState) × (r : Result FlowError StepOutput) × (step fuel env flow s input
        ≡ finished s' r)
unfolding step
step-finished def flow rank fuel env s input h down known enough =
    elim (Bool-cases (ltb s.expires_at (env.clock 0))) [
      | inl late ↦ (s, err expired, rw (late, step))
      | inr in_time ↦
          let (v, c) = compile_sound def flow h in
          rw (in_time, step)
            (run-finished def flow v c rank down fuel (later (later env))
              (record s { last_activity_at = env.clock 1 }) input known enough)
    ]

run-unfinished :
    (fuel : ℕ) (env : Env) (flow : CompiledFlow) (s : FlowState) (input : StepInput) (n : FlowNode)
    (name : String)
    → node flow s.current_node ≡ some n
    → n.kind ≡ NodeKind.action name
    → next_with_guard env.serde flow n.id otherwise s.context ≡ some s.current_node
    → run fuel env flow s input ≡ unfinished
unfolding run visit advance next_on
run-unfinished zero env flow s input n name at kind loops = refl
run-unfinished (suc fuel) env flow s input n name at kind loops =
    rw (at, run, kind, visit, loops)
      (run-unfinished fuel (later env) flow s input n name at kind loops)

-- A step whose state has not expired and stands at an action node never returns, if the edge selected
-- there for `Otherwise`, its guard included, leads back to the node: no amount of fuel is enough.
pub step-unfinished :
    (fuel : ℕ) (env : Env) (flow : CompiledFlow) (s : FlowState) (input : StepInput) (n : FlowNode)
    (name : String)
    → env.clock 0 ≤ s.expires_at
    → node flow s.current_node ≡ some n
    → n.kind ≡ NodeKind.action name
    → next_with_guard env.serde flow n.id otherwise s.context ≡ some s.current_node
    → step fuel env flow s input ≡ unfinished
unfolding step
step-unfinished fuel env flow s input n name in_time at kind loops =
    rw (le→ltb s.expires_at (env.clock 0) in_time) (
      run-unfinished fuel (later (later env)) flow (record s { last_activity_at = env.clock 1 })
        input n name at kind loops)
