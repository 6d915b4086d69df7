-- ===== src/Flow/Executor/Steps.antt =====
-- A whole call of `step` on a compiled flow, crates/geonosis-flow/src/executor.rs.
use geonosis.Base.{
  ℕ, zero, suc, some, List, [], ◌∷◌, ◌++◌, Result, ok, ◌≡◌, refl, sym, ap, ◌∙◌, ◌⊎◌, inl, inr, true,
  arith, In, subst, ◌<◌,
}
use geonosis.Core.Subject.{Subject, local}
use geonosis.Flow.Dsl.{NodeId, FlowNode, FlowDefinition, Edge, is_success}
use geonosis.Flow.State.{FlowContext, FlowState, FlowHistoryEntry}
use geonosis.Flow.Compile.{CompiledFlow, node}
use geonosis.Flow.Compile.Reach.{Reach, here, step as onward}
use geonosis.Flow.Compile.Valid.{HasNode, IsValid, IsCompiled}
use geonosis.Flow.Executor.{
  Env, later, StepInput, StepOutput, FlowError, Round, continue, return, done, Run, unfinished,
  panicked, finished, visit, run, resolved_user,
}
use geonosis.Flow.Executor.Choice.{next_with_guard-some}
use geonosis.Flow.Executor.Rounds.{IsKept, IsKept-trans, IsRound, visit-IsRound, visit-IsDone}

pub Reach-trans :
    (edges : List Edge) (a b c : NodeId) → Reach edges a b → Reach edges b c → Reach edges a c
Reach-trans edges a b c r here = r
Reach-trans edges a b c r (onward e i q from to) = onward e i (Reach-trans edges a b _ r q) from to

-- A subject is reported at a success node of the definition, which the history names last, and it is
-- the user that the context resolves to.
abbrev pub IsArrival : FlowDefinition → Env → CompiledFlow → FlowState → Subject → Type 0
IsArrival def env flow s subject =
    (n : FlowNode) × In n def.nodes
    × (n.id ≡ s.current_node)
    × (is_success n.kind ≡ true)
    × (subject ≡ local (resolved_user env flow s.context))
    × (before : List FlowHistoryEntry) × (now : ℕ) × (s.history
        ≡ before ++ record { node = n.id; at = now; outcome = "success" } ∷ [])

-- A call never panics; where it returns, it has walked along edges of the definition, has kept the
-- identity of the flow, and reports a subject only on arrival.
abbrev pub IsOutcome : FlowDefinition → Env → CompiledFlow → FlowState → Run → Type 0
IsOutcome def env flow s unfinished = Unit
IsOutcome def env flow s panicked = ⊥
IsOutcome def env flow s (finished s' r) =
    IsKept s s'
    × Reach def.edges s.current_node s'.current_node
    × ((subject : Subject) → r ≡ ok (done subject) → IsArrival def env flow s' subject)

touched-IsKept :
    (s t : FlowState) (now : ℕ) → IsKept (record s { last_activity_at = now }) t → IsKept s t
touched-IsKept s t now k = record {
  id = k.id;
  realm_id = k.realm_id;
  flow_id = k.flow_id;
  flow_version = k.flow_version;
  started_at = k.started_at;
  expires_at = k.expires_at;
  csrf_token = k.csrf_token;
  history = k.history;
}

-- The clock and the time of the last activity are no part of an outcome.
pub touched :
    (def : FlowDefinition) (env : Env) (flow : CompiledFlow) (s : FlowState) (now : ℕ) (o : Run)
    → IsOutcome def (later (later env)) flow (record s { last_activity_at = now }) o
    → IsOutcome def env flow s o
unfolding resolved_user
touched def env flow s now unfinished h = tt
touched def env flow s now panicked h = h
touched def env flow s now (finished t r) (k, reach, arrives) =
    (touched-IsKept s t now k, reach, arrives)

module _ (def : FlowDefinition) (flow : CompiledFlow) (v : IsValid def)
    (c : IsCompiled def flow) where
  at_node :
      (id : NodeId)
      → HasNode def id
      → (n : FlowNode) × (node flow id ≡ some n) × In n def.nodes × (n.id ≡ id)
  at_node id (n, i, same) =
      (n, subst (λ (k : NodeId). node flow k ≡ some n) same (c.found n i), i, same)

  -- A round that goes on follows an edge.
  follow :
      (env : Env) (s s' : FlowState) (input : StepInput) (n : FlowNode)
      → n.id ≡ s.current_node
      → visit env flow s input n.id n.kind ≡ continue s'
      → (e : Edge) × In e def.edges
        × (e.from ≡ s.current_node)
        × (e.to ≡ s'.current_node)
        × IsKept s s'
  follow env s s' input n same h =
      let r = subst (IsRound env flow n.id s) h (visit-IsRound env flow n.id s input n.kind) in
      let (on, ctx, chosen) = r.1 in
      let (e, i, from, to, m) =
        next_with_guard-some env.serde def flow c n.id s'.current_node on ctx chosen in
      (e, i, from ∙ same, to, r.0)

  stop :
      (env : Env) (s s' : FlowState) (input : StepInput) (n : FlowNode)
      (r : Result FlowError StepOutput)
      → In n def.nodes
      → n.id ≡ s.current_node
      → visit env flow s input n.id n.kind ≡ return s' r
      → IsOutcome def env flow s (finished s' r)
  stop env s s' input n r i same h =
      let k = subst (IsRound env flow n.id s) h (visit-IsRound env flow n.id s input n.kind) in
      (
        k.0,
        subst (Reach def.edges s.current_node) (sym k.1) here,
        λ subject e.
            let d = visit-IsDone env flow n.id s s' input n.kind subject (h ∙ ap (return s') e) in
            (
              n,
              i,
              same ∙ sym k.1,
              d.0,
              d.1 ∙ ap (λ (ctx : FlowContext). local (resolved_user env flow ctx)) (sym d.2),
              s.history,
              env.clock 0,
              d.3,
            ),
      )

  lift-IsOutcome :
      (env : Env) (s s' : FlowState) (e : Edge) (o : Run)
      → In e def.edges
      → e.from ≡ s.current_node
      → e.to ≡ s'.current_node
      → IsKept s s'
      → IsOutcome def (later env) flow s' o
      → IsOutcome def env flow s o
  unfolding resolved_user
  lift-IsOutcome env s s' e unfinished i from to k h = tt
  lift-IsOutcome env s s' e panicked i from to k h = h
  lift-IsOutcome env s s' e (finished t r) i from to k (l, reach, arrives) = (
    IsKept-trans s s' t k l,
    Reach-trans def.edges s.current_node s'.current_node t.current_node (onward e i here from to)
        reach,
    arrives,
  )

  Round-cases :
      (r : Round)
      → ((s : FlowState) × (r ≡ continue s))
        ⊎ ((s : FlowState) × (x : Result FlowError StepOutput) × (r ≡ return s x))
  Round-cases (continue s) = inl (s, refl)
  Round-cases (return s x) = inr (s, x, refl)

  pub run-IsOutcome :
      (fuel : ℕ) (env : Env) (s : FlowState) (input : StepInput)
      → HasNode def s.current_node
      → IsOutcome def env flow s (run fuel env flow s input)
  unfolding run
  run-IsOutcome zero env s input known = tt
  run-IsOutcome (suc fuel) env s input known =
      let (n, at, i, same) = at_node s.current_node known in
      elim (Round-cases (visit env flow s input n.id n.kind)) [
        | inl (s', h) ↦
            let (e, j, from, to, k) = follow env s s' input n same h in
            rw (at, run, h)
              (lift-IsOutcome env s s' e (run fuel (later env) flow s' input) j from to k
                (run-IsOutcome fuel (later env) s' input (subst (HasNode def) to (v.targets e j))))
        | inr (s', r, h) ↦ rw (at, run, h) (stop env s s' input n r i same h)
      ]

  -- Where the edges lead downwards the loop ends.
  pub run-finished :
      (rank : NodeId → ℕ)
      → ((e : Edge) → In e def.edges → rank e.to < rank e.from)
      → (fuel : ℕ) (env : Env) (s : FlowState) (input : StepInput) → HasNode def s.current_node
      → rank s.current_node < fuel
      → (s' : FlowState) × (r : Result FlowError StepOutput) × (run fuel env flow s input
          ≡ finished s' r)
  unfolding run
  run-finished rank down zero env s input known enough = absurd (omega arith)
  run-finished rank down (suc fuel) env s input known enough =
      let (n, at, i, same) = at_node s.current_node known in
      elim (Round-cases (visit env flow s input n.id n.kind)) [
        | inl (s', h) ↦
            let (e, j, from, to, k) = follow env s s' input n same h in
            rw (at, run, h)
              (run-finished rank down fuel (later env) s' input
                (subst (HasNode def) to (v.targets e j))
                (omega (arith, down e j, ap rank from, ap rank to)))
        | inr (s', r, h) ↦ (s', r, rw (at, run, h))
      ]
