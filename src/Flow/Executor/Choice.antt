-- ===== src/Flow/Executor/Choice.antt =====
-- Which edge is taken, crates/geonosis-flow/src/compile.rs: `next_with_guard`.
use geonosis.Base.{
  Bool, true, ◌&&◌, Option, none, some, List, ◌≡◌, refl, ap, ◌∙◌, ◌⊎◌, inl, inr, arith, ◌==◌, In,
  find, find-In, find-none, &&-true, Option-cases, nat_eq,
}
use geonosis.Flow.Json.{Serde}
use geonosis.Flow.Dsl.{
  NodeId, Edge, EdgeCondition, otherwise, status, FlowDefinition, condition_eq, condition_beq_iff,
}
use geonosis.Flow.State.{FlowContext}
use geonosis.Flow.Guard.{eval_guard}
use geonosis.Flow.Compile.{CompiledFlow, choose, next_with_guard, target, is_otherwise}
use geonosis.Flow.Compile.Edges.{leaving, next_with_guard-edges_from}
use geonosis.Flow.Compile.Reach.{leaving-from}
use geonosis.Flow.Compile.Explored.{In-leaving}
use geonosis.Flow.Compile.Valid.{IsCompiled}

module _ (serde : Serde) (ctx : FlowContext) (on : EdgeCondition) where
  abbrev pub IsMatch : Edge → Type 0
  IsMatch e = (e.on ≡ on) × (eval_guard serde e.guard ctx ≡ true)

  abbrev pub IsFallback : Edge → Type 0
  IsFallback e = (e.on ≡ otherwise) × (eval_guard serde e.guard ctx ≡ true)

  is_otherwise-eq : (c : EdgeCondition) → is_otherwise c ≡ true → c ≡ otherwise
  is_otherwise-eq otherwise h = refl
  is_otherwise-eq EdgeCondition.success h = cc
  is_otherwise-eq EdgeCondition.failure h = cc
  is_otherwise-eq (status s) h = cc

  matches : Edge → Bool
  matches e = e.on == on && eval_guard serde e.guard ctx

  falls : Edge → Bool
  falls e = is_otherwise e.on && eval_guard serde e.guard ctx

  matches-IsMatch : (e : Edge) → matches e ≡ true → IsMatch e
  unfolding matches
  matches-IsMatch e h =
      let (a, b) = &&-true (e.on == on) (eval_guard serde e.guard ctx) h in
      ((condition_beq_iff e.on on).0 a, b)

  IsMatch-matches : (e : Edge) → IsMatch e → matches e ≡ true
  unfolding matches
  IsMatch-matches e (a, b) = rw ((condition_beq_iff e.on on).1 a) b

  falls-IsFallback : (e : Edge) → falls e ≡ true → IsFallback e
  unfolding falls
  falls-IsFallback e h =
      let (a, b) = &&-true (is_otherwise e.on) (eval_guard serde e.guard ctx) h in
      (is_otherwise-eq e.on a, b)

  IsFallback-falls : (e : Edge) → IsFallback e → falls e ≡ true
  unfolding falls
  IsFallback-falls e (a, b) = rw (ap is_otherwise a) b

  unmatched :
      (edges : List Edge) → find matches edges ≡ none → (d : Edge) → In d edges → ¬ IsMatch d
  unmatched edges none_found d i m =
      ground (arith, find-none matches edges none_found d i, IsMatch-matches d m)

  -- The chosen edge matches, or is a fallback where nothing matches.
  pub choose-some :
      (edges : List Edge) (e : Edge)
      → choose serde ctx on edges ≡ some e
      → In e edges × (IsMatch e ⊎ (IsFallback e × ((d : Edge) → In d edges → ¬ IsMatch d)))
  unfolding choose matches falls
  choose-some edges e h = elim (Option-cases (find matches edges)) [
    | inl missed ↦
        let (i, f) = find-In falls edges e (ground arith) in
        (i, inr (falls-IsFallback e f, unmatched edges missed))
    | inr (x, hit) ↦
        let (i, m) = find-In matches edges e (ground arith) in (i, inl (matches-IsMatch e m))
  ]

  -- No edge is chosen only where none is eligible.
  pub choose-none :
      (edges : List Edge) (e : Edge)
      → choose serde ctx on edges ≡ none
      → In e edges
      → ¬ (IsMatch e ⊎ IsFallback e)
  unfolding choose matches falls
  choose-none edges e h i (inl m) =
      ground (arith, find-none matches edges (ground arith) e i, IsMatch-matches e m)
  choose-none edges e h i (inr f) = elim (Option-cases (find matches edges)) [
    | inl missed ↦ ground (arith, find-none falls edges (ground arith) e i, IsFallback-falls e f)
    | inr (x, hit) ↦ ground arith
  ]

module _ (serde : Serde) (def : FlowDefinition) (flow : CompiledFlow)
    (c : IsCompiled def flow) where
  -- An edge of the definition out of `from` whose guard passes, with the condition asked for, or with
  -- `Otherwise` where no edge of that condition is eligible; and no target if no edge is eligible.
  abbrev pub IsChoice : NodeId → EdgeCondition → FlowContext → Option NodeId → Type 0
  IsChoice from on ctx (some t) =
      (e : Edge) × In e def.edges
      × (e.from ≡ from)
      × (e.to ≡ t)
      × (IsMatch serde ctx on e
          ⊎ (IsFallback serde ctx on e
              × ((d : Edge) → In d def.edges → d.from ≡ from → ¬ IsMatch serde ctx on d)))
  IsChoice from on ctx none =
      (d : Edge)
      → In d def.edges
      → d.from ≡ from
      → ¬ (IsMatch serde ctx on d ⊎ IsFallback serde ctx on d)

  selected :
      (from : NodeId) (on : EdgeCondition) (ctx : FlowContext)
      → next_with_guard serde flow from on ctx
        ≡ target (choose serde ctx on (leaving from def.edges))
  selected from on ctx =
      next_with_guard-edges_from serde flow from on ctx
      ∙ ap (λ (es : List Edge). target (choose serde ctx on es)) (c.grouped from)

  pub next_with_guard-some :
      (from t : NodeId) (on : EdgeCondition) (ctx : FlowContext)
      → next_with_guard serde flow from on ctx ≡ some t
      → IsChoice from on ctx (some t)
  next_with_guard-some from t on ctx h =
      elim (Option-cases (choose serde ctx on (leaving from def.edges))) [
        | inl missed ↦ absurd (ground (arith, selected from on ctx))
        | inr (e, hit) ↦
            let (i, m) = choose-some serde ctx on (leaving from def.edges) e hit in
            let (j, same) = leaving-from from def.edges e i in
            (
              e,
              j,
              same,
              ground (arith, selected from on ctx),
              elim m [
                | inl a ↦ inl a
                | inr (f, others) ↦ inr (f, λ d k s. others d (In-leaving from def.edges d k s))
              ],
            )
      ]

  next_with_guard-none :
      (from : NodeId) (on : EdgeCondition) (ctx : FlowContext)
      → next_with_guard serde flow from on ctx ≡ none
      → IsChoice from on ctx none
  next_with_guard-none from on ctx h d i same =
      choose-none serde ctx on (leaving from def.edges) d
        (unchosen (choose serde ctx on (leaving from def.edges)) refl)
        (In-leaving from def.edges d i same)
    where
      unchosen : (o : Option Edge) → choose serde ctx on (leaving from def.edges) ≡ o → o ≡ none
      unchosen none e = refl
      unchosen (some x) e = absurd (ground (arith, selected from on ctx))

  -- On a compiled flow the selection yields the target of an edge of the definition out of the node
  -- whose guard passes and which has the condition asked for, or `Otherwise` where no edge of that
  -- condition is eligible; it yields nothing only where no edge is eligible.
  pub next_with_guard-IsChoice :
      (from : NodeId) (on : EdgeCondition) (ctx : FlowContext)
      → IsChoice from on ctx (next_with_guard serde flow from on ctx)
  next_with_guard-IsChoice from on ctx = by_cases (next_with_guard serde flow from on ctx) refl
    where
      by_cases :
          (o : Option NodeId) → next_with_guard serde flow from on ctx ≡ o → IsChoice from on ctx o
      by_cases none e = next_with_guard-none from on ctx e
      by_cases (some t) e = next_with_guard-some from t on ctx e
