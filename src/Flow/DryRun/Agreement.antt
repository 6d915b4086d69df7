-- ===== src/Flow/DryRun/Agreement.antt =====
-- A terminal that the dry run of crates/geonosis-flow/src/dry_run.rs reports is the one that the
-- executor reaches.
use geonosis.Base.{
  ℕ, zero, suc, ◌≤◌, String, some, some-eq, List, [], ok, Map, lookup, nat_eq, ◌≡◌, refl, sym, ap,
  ◌∙◌, inl, inr, subst, In, le→ltb,
}
use geonosis.Base.Int.{pos, ◌+ℤ◌, wrap_i32}
use geonosis.Core.Subject.{Subject, local}
use geonosis.Flow.Json.{Serde}
use geonosis.Flow.Dsl.{NodeId, NodeKind, FlowNode, FlowDefinition}
use geonosis.Flow.State.{FlowContext, FlowState}
use geonosis.Flow.Compile.{CompiledFlow, compile, node}
use geonosis.Flow.Compile.Valid.{HasNode, IsValid, IsCompiled}
use geonosis.Flow.Compile.Accepts.{compile_sound}
use geonosis.Flow.Executor.{
  Env, later, FormBody, StepInput, StepOutput, other, continue, done, failed, run, step, finished,
  visit, push_history, resolved_user,
}
use geonosis.Flow.DryRun.{
  ExpectedOutcome, Texts, DryRunReport, DryRunStep, TerminalState, report, onward, preferred,
  next_node, turn, walk, max_steps, dry_run_compiled,
}
use geonosis.Flow.DryRun.Turns.{answer, IsBroker, visit-Follows}
use geonosis.Flow.DryRun.Budget.{IsTurn, turn-IsTurn, Turn-cases, known_node, next_known}

-- What a reported terminal says of an executor's return; an incomplete walk says nothing.
abbrev pub Confirms : TerminalState → (FlowState → StepOutput → Type 0) → Type 0
Confirms TerminalState.success Q = (s : FlowState) × (subject : Subject) × Q s (done subject)
Confirms TerminalState.failure Q = (s : FlowState) × (why : String) × Q s (failed (other why))
Confirms TerminalState.incomplete Q = Unit

-- The executor is at a node where the dry run is, with the same context, no broker in the flow, and a
-- dispatcher that answers as the dry run expects.
module _ (def : FlowDefinition) (flow : CompiledFlow) (v : IsValid def) (c : IsCompiled def flow)
    (texts : Texts) (expected : Map NodeId ExpectedOutcome) (form : FormBody)
    (context : FlowContext) (level : wrap_i32 (context.authn_level +ℤ pos 0) ≡ context.authn_level)
    (brokerless : (n : FlowNode) → In n def.nodes → ¬ IsBroker n.kind) where
  abbrev pub IsPinned : Env → Type 0
  IsPinned env =
      (k : ℕ) (urn : String) (s : FlowState)
      → env.dispatch k urn s (StepInput.submit form) ≡ ok (answer (lookup s.current_node expected))

  walk_reports :
      (serde : Serde) (steps : List DryRunStep) (current : NodeId) (budget : ℕ) (n : FlowNode)
      (r : DryRunReport)
      → node flow current ≡ some n
      → turn serde texts flow context (lookup n.id expected) steps n.id n.kind ≡ report r
      → walk serde texts flow context expected (suc budget) steps current ≡ some r
  unfolding walk
  walk_reports serde steps current budget n r at e = rw (at, walk, e)

  walk_goes :
      (serde : Serde) (steps : List DryRunStep) (current : NodeId) (budget : ℕ) (n : FlowNode)
      (steps' : List DryRunStep) (t : NodeId)
      → node flow current ≡ some n
      → turn serde texts flow context (lookup n.id expected) steps n.id n.kind ≡ onward steps' t
      → walk serde texts flow context expected (suc budget) steps current
        ≡ walk serde texts flow context expected budget steps' t
  unfolding walk
  walk_goes serde steps current budget n steps' t at e = rw (at, walk, e)

  run_goes :
      (budget : ℕ) (env : Env) (s s' : FlowState) (n : FlowNode)
      → node flow s.current_node ≡ some n
      → visit env flow s (StepInput.submit form) n.id n.kind ≡ continue s'
      → run (suc budget) env flow s (StepInput.submit form)
        ≡ run budget (later env) flow s' (StepInput.submit form)
  unfolding run
  run_goes budget env s s' n at goes = rw (at, run, goes)

  -- At a terminal node the executor reports it.
  arrived :
      (budget : ℕ) (env : Env) (s : FlowState) (n : FlowNode)
      → node flow s.current_node ≡ some n
      → (x : TerminalState)
      → (x ≡ TerminalState.success → (config : _) × (n.kind ≡ NodeKind.success config))
      → (x ≡ TerminalState.failure → (why : String) × (n.kind ≡ NodeKind.failure why))
      → Confirms x
          (λ t out. run (suc budget) env flow s (StepInput.submit form) ≡ finished t (ok out))
  unfolding run visit
  arrived budget env s n at TerminalState.success wins loses =
      let (config, kind) = wins refl in
      (
        push_history s n.id (env.clock 0) "success",
        local (resolved_user env flow s.context),
        rw (at, run, kind, visit),
      )
  arrived budget env s n at TerminalState.failure wins loses =
      let (why, kind) = loses refl in
      (push_history s n.id (env.clock 0) "failure", why, rw (at, run, kind, visit))
  arrived budget env s n at TerminalState.incomplete wins loses = tt

  walk-run :
      (budget : ℕ) (env : Env) (s : FlowState) (steps : List DryRunStep) (r : DryRunReport)
      → IsPinned env
      → s.context ≡ context
      → HasNode def s.current_node
      → walk env.serde texts flow context expected budget steps s.current_node ≡ some r
      → Confirms r.terminal
          (λ t out. run budget env flow s (StepInput.submit form) ≡ finished t (ok out))
  unfolding walk run
  walk-run zero env s steps r pinned same known h =
      subst
        (λ (x : DryRunReport).
          Confirms x.terminal
            (λ t out. run 0 env flow s (StepInput.submit form) ≡ finished t (ok out)))
        (some-eq _ r h) tt
  walk-run (suc budget) env s steps r pinned same known h =
      let (n, at, i, same_id) = known_node def flow v c s.current_node known in
      let o = lookup n.id expected in
      let x = turn env.serde texts flow context o steps n.id n.kind in
      let spec = turn-IsTurn env.serde texts flow context o steps n.id n.kind in
      elim (Turn-cases env.serde texts flow context x) [
        | inl (r', e) ↦
            let spec' = subst (IsTurn env.serde texts flow context o steps n.id n.kind) e spec in
            let stopped : r' ≡ r =
              some-eq r' r
                (sym (walk_reports env.serde steps s.current_node budget n r' at e) ∙ h) in
            subst
              (λ (y : DryRunReport). Confirms y.terminal (λ t out.
                run (suc budget) env flow s (StepInput.submit form) ≡ finished t (ok out)))
              stopped (arrived budget env s n at r'.terminal spec'.1 spec'.2)
        | inr (steps', t, e) ↦
            let spec' = subst (IsTurn env.serde texts flow context o steps n.id n.kind) e spec in
            let (s', goes, cur, ctx) =
              visit-Follows texts env flow s form
                (subst (λ (d : FlowContext). wrap_i32 (d.authn_level +ℤ pos 0) ≡ d.authn_level)
                  (sym same) level)
                n.id t n.kind o (brokerless n i) spec'.0
                (λ urn.
                  pinned 0 urn s
                  ∙ ap (λ (k : NodeId). ok (answer (lookup k expected))) (sym same_id))
                (subst
                  (λ (d : FlowContext).
                    next_node env.serde texts flow d n.id (preferred n.kind o) ≡ some t)
                  (sym same) spec'.1) in
            let walked =
              sym (walk_goes env.serde steps s.current_node budget n steps' t at e) ∙ h in
            let rest =
              walk-run budget (later env) s' steps' r (λ k. pinned (suc k)) (ctx ∙ same)
                (subst (HasNode def) (sym cur)
                  (next_known def flow v c env.serde texts context n.id t n.kind o spec'.1))
                (subst
                  (λ (k : NodeId).
                    walk env.serde texts flow context expected budget steps' k ≡ some r)
                  (sym cur) walked) in
            subst (λ y. Confirms r.terminal (λ t' out. y ≡ finished t' (ok out)))
              (sym (run_goes budget env s s' n at goes)) rest
      ]

live_step :
    (def : FlowDefinition) (flow : CompiledFlow) (env : Env) (s : FlowState) (form : FormBody)
    → env.clock 0 ≤ s.expires_at
    → step 256 env flow s (StepInput.submit form)
      ≡ run 256
          (later (later env))
          flow
          (record s { last_activity_at = env.clock 1 })
          (StepInput.submit form)
unfolding step
live_step def flow env s form in_time = rw (le→ltb s.expires_at (env.clock 0) in_time)

-- For a compiled flow without broker nodes: where the dry run reports a success or a failure, a step
-- of the executor with a posted form, from the start node in the same context and before the state
-- expires, comes to the same terminal within the dry run's 256 rounds, if the dispatcher answers
-- every call as the dry run expects and contributes nothing.
pub dry_run-Confirms :
    (def : FlowDefinition) (flow : CompiledFlow) (texts : Texts)
    (expected : Map NodeId ExpectedOutcome) (form : FormBody) (env : Env) (s : FlowState)
    (r : DryRunReport)
    → compile def ≡ some (ok flow)
    → wrap_i32 (s.context.authn_level +ℤ pos 0) ≡ s.context.authn_level
    → ((n : FlowNode) → In n def.nodes → ¬ IsBroker n.kind)
    → ((k : ℕ) (urn : String) (t : FlowState)
        → env.dispatch k urn t (StepInput.submit form)
          ≡ ok (answer (lookup t.current_node expected)))
    → s.current_node ≡ def.start
    → env.clock 0 ≤ s.expires_at
    → dry_run_compiled env.serde texts flow s.context expected ≡ some r
    → Confirms r.terminal
        (λ t out. step 256 env flow s (StepInput.submit form) ≡ finished t (ok out))
unfolding dry_run_compiled step
dry_run-Confirms def flow texts expected form env s r h level brokerless pinned at_start in_time
      ran =
    let (v, c) = compile_sound def flow h in
    let s' : FlowState = record s { last_activity_at = env.clock 1 } in
    let walked =
      walk-run def flow v c texts expected form s.context level brokerless max_steps
        (later (later env)) s' [] r (λ k. pinned (suc (suc k))) refl
        (subst (HasNode def) (sym at_start) v.start)
        (subst
          (λ (k : NodeId). walk env.serde texts flow s.context expected max_steps [] k ≡ some r)
          (ap (λ (d : FlowDefinition). d.start) c.definition ∙ sym at_start) ran) in
    subst (λ y. Confirms r.terminal (λ t out. y ≡ finished t (ok out)))
      (sym (live_step def flow env s form in_time)) walked
