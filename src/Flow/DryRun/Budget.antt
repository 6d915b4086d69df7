-- ===== src/Flow/DryRun/Budget.antt =====
-- The dry run ends within its budget, crates/geonosis-flow/src/dry_run.rs.
use geonosis.Base.{
  ℕ, zero, suc, ◌+◌, ◌≤◌, String, Option, none, some, List, [], ok, Map, lookup, nat_eq, ◌≡◌, refl,
  sym, ◌∙◌, false, arith, ◌⊎◌, inl, inr, Option-cases, subst, length, length-append, In,
}
use geonosis.Flow.Json.{Serde}
use geonosis.Flow.Dsl.{NodeId, NodeKind, FlowNode, FlowDefinition, otherwise, is_terminal}
use geonosis.Flow.State.{FlowContext}
use geonosis.Flow.Compile.{CompiledFlow, compile, node, next_with_guard}
use geonosis.Flow.Compile.Valid.{HasNode, IsValid, IsCompiled}
use geonosis.Flow.Compile.Accepts.{compile_sound}
use geonosis.Flow.Executor.Choice.{next_with_guard-some}
use geonosis.Flow.DryRun.{
  ExpectedOutcome, Texts, DryRunReport, DryRunStep, TerminalState, Turn, report, onward, preferred,
  next_node, turn, walk, take_edge, arrive, max_steps, dry_run_compiled,
}

module _ (serde : Serde) (texts : Texts) (flow : CompiledFlow) (context : FlowContext) where
  -- A turn that goes on does so at no terminal, along the preferred edge, with one more step.
  abbrev pub IsTurn : Option ExpectedOutcome → List DryRunStep → NodeId → NodeKind → Turn → Type 0
  IsTurn o steps id kind (onward steps' t) =
      (is_terminal kind ≡ false)
      × (next_node serde texts flow context id (preferred kind o) ≡ some t)
      × (length steps' ≡ length steps + 1)
  IsTurn o steps id kind (report r) =
      (length r.steps ≡ length steps + 1)
      × (r.terminal ≡ TerminalState.success → (c : _) × (kind ≡ NodeKind.success c))
      × (r.terminal ≡ TerminalState.failure → (why : String) × (kind ≡ NodeKind.failure why))

  took :
      (o : Option ExpectedOutcome) (steps : List DryRunStep) (id : NodeId) (kind : NodeKind)
      → is_terminal kind ≡ false
      → (t : Option NodeId) → next_node serde texts flow context id (preferred kind o) ≡ t
      → (label : String)
      → IsTurn o steps id kind
          (take_edge serde texts flow context steps id kind (preferred kind o) label t)
  unfolding take_edge
  took o steps id kind x (some t) e label = (x, e, length-append steps _)
  took o steps id kind x none e label = (length-append steps _, λ h. cc, λ h. cc)

  pub turn-IsTurn :
      (o : Option ExpectedOutcome) (steps : List DryRunStep) (id : NodeId) (kind : NodeKind)
      → IsTurn o steps id kind (turn serde texts flow context o steps id kind)
  unfolding turn arrive
  turn-IsTurn o steps id (NodeKind.success config) =
      (length-append steps _, λ h. (config, refl), λ h. cc)
  turn-IsTurn o steps id (NodeKind.failure why) = (length-append steps _, λ h. cc, λ h. (why, refl))
  turn-IsTurn o steps id kind = took o steps id _ refl _ refl _

  pub Turn-cases :
      (x : Turn)
      → ((r : DryRunReport) × (x ≡ report r))
        ⊎ ((steps : List DryRunStep) × (t : NodeId) × (x ≡ onward steps t))
  Turn-cases (report r) = inl (r, refl)
  Turn-cases (onward steps t) = inr (steps, t, refl)

module _ (def : FlowDefinition) (flow : CompiledFlow) (v : IsValid def)
    (c : IsCompiled def flow) where
  pub known_node :
      (id : NodeId)
      → HasNode def id
      → (n : FlowNode) × (node flow id ≡ some n) × In n def.nodes × (n.id ≡ id)
  known_node id (n, i, same) =
      (n, subst (λ (k : NodeId). node flow k ≡ some n) same (c.found n i), i, same)

  pub next_known :
      (serde : Serde) (texts : Texts) (context : FlowContext) (id t : NodeId) (kind : NodeKind)
      (o : Option ExpectedOutcome)
      → next_node serde texts flow context id (preferred kind o) ≡ some t
      → HasNode def t
  unfolding next_node
  next_known serde texts context id t kind o h =
      elim (Option-cases (next_with_guard serde flow id (preferred kind o) context)) [
        | inl missed ↦
            let (e, i, from, to, m) =
              next_with_guard-some serde def flow c id t otherwise context (ground arith) in
            subst (HasNode def) to (v.targets e i)
        | inr (u, hit) ↦
            let (e, i, from, to, m) =
              next_with_guard-some serde def flow c id u (preferred kind o) context hit in
            subst (HasNode def) (to ∙ ground arith) (v.targets e i)
      ]

  walk-total :
      (serde : Serde) (texts : Texts) (context : FlowContext)
      (expected : Map NodeId ExpectedOutcome) (budget : ℕ) (steps : List DryRunStep)
      (current : NodeId)
      → HasNode def current
      → (r : DryRunReport) × (walk serde texts flow context expected budget steps current ≡ some r)
        × (length r.steps ≤ length steps + budget)
  unfolding walk
  walk-total serde texts context expected zero steps current known = (_, refl, omega arith)
  walk-total serde texts context expected (suc budget) steps current known =
      let (n, at, i, same) = known_node current known in
      let x = turn serde texts flow context (lookup n.id expected) steps n.id n.kind in
      let spec = turn-IsTurn serde texts flow context (lookup n.id expected) steps n.id n.kind in
      elim (Turn-cases serde texts flow context x) [
        | inl (r, e) ↦
            let spec' =
              subst (IsTurn serde texts flow context (lookup n.id expected) steps n.id n.kind) e
                spec in
            (r, rw (at, walk, e), omega (arith, spec'.0))
        | inr (steps', t, e) ↦
            let spec' =
              subst (IsTurn serde texts flow context (lookup n.id expected) steps n.id n.kind) e
                spec in
            let (r, h, short) =
              walk-total serde texts context expected budget steps' t
                (next_known serde texts context n.id t n.kind (lookup n.id expected) spec'.1) in
            (r, rw (at, walk, e) h, omega (arith, spec'.2))
      ]

-- A dry run of a compiled flow ends within its budget of 256 steps, and never indexes out of bounds.
pub dry_run_compiled-total :
    (def : FlowDefinition) (flow : CompiledFlow) (serde : Serde) (texts : Texts)
    (context : FlowContext) (expected : Map NodeId ExpectedOutcome)
    → compile def ≡ some (ok flow)
    → (r : DryRunReport) × (dry_run_compiled serde texts flow context expected ≡ some r)
      × (length r.steps ≤ 256)
unfolding dry_run_compiled
dry_run_compiled-total def flow serde texts context expected h =
    let (v, c) = compile_sound def flow h in
    walk-total def flow v c serde texts context expected max_steps [] flow.definition.start
      (subst (λ (d : FlowDefinition). HasNode def d.start) (sym c.definition) v.start)
