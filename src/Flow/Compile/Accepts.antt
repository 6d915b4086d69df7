-- ===== src/Flow/Compile/Accepts.antt =====
-- `compile` as a whole, crates/geonosis-flow/src/compile.rs: it accepts exactly the valid flows.
use geonosis.Base.{
  ℕ, true, false, none, some, List, [], ◌∷◌, ◌≡◌, refl, sym, ap, ◌∙◌, ◌≢◌, inl, inr, arith, ok, err,
  nat_eq, Map, lookup, contains_key, In, In-All, All-In, Result, Option-cases, Result-cases,
  Bool-cases, subst,
}
use geonosis.Flow.Dsl.{NodeId, FlowNode, Edge, FlowDefinition, is_terminal}
use geonosis.Flow.Compile.{
  CompiledFlow, index_nodes, group_edges, explore, explore_fuel, verdict, assemble, compile,
  CompileError,
}
use geonosis.Flow.Compile.Index.{
  index_nodes-get_elem?, index_nodes-HasDistinctIds, index_nodes-total,
}
use geonosis.Flow.Compile.Edges.{
  leaving, IsKnownEdge, group_edges-IsKnownEdge, group_edges-total, group_edges-leaving,
  group_edges-ne-nil, check_terminals-total,
}
use geonosis.Flow.Compile.Reach.{Reach, here, explore_sound, leaving-from}
use geonosis.Flow.Compile.Explored.{explore_complete}
use geonosis.Flow.Compile.Valid.{
  HasNode, IsValid, IsCompiled, IsAssembled, assemble-IsAssembled, assemble-total, contained,
  assembled-IsCompiled, assembled-IsClosed, assembled-explore, terminal_closed, assembled_found,
  assembled_listed, In-get_elem?,
}

-- `compile` answers on every definition: it never indexes out of bounds, and its fuel is enough.
pub compile-total :
    (def : FlowDefinition) → (r : Result CompileError CompiledFlow) × (compile def ≡ some r)
unfolding compile
compile-total def = elim (Result-cases (assemble def)) [
  | inl (flow, e) ↦
      let (b, x) = assembled-explore def flow (assemble-IsAssembled def flow e) in
      rw (e, compile, x) (verdict flow b, refl)
  | inr (c, e) ↦ rw (e, compile) (err c, refl)
]

compile-ok :
    (def : FlowDefinition) (flow : CompiledFlow)
    → compile def ≡ some (ok flow)
    → IsAssembled def flow × (explore flow (explore_fuel def) [] (def.start ∷ []) false ≡ some true)
unfolding compile verdict
compile-ok def flow h = elim (Result-cases (assemble def)) [
  | inl (f, e) ↦
      let (b, x) = assembled-explore def f (assemble-IsAssembled def f e) in
      let same : f ≡ flow = ground (arith, e, x) in
      (assemble-IsAssembled def flow (e ∙ ap ok same), ground (arith, e, x))
  | inr (c, e) ↦ absurd (ground arith)
]

-- A definition that `compile` accepts is valid: its ids are distinct, the start and the ends of every
-- edge are nodes, no edge leaves a terminal, and a success node is in reach of the start. The
-- compiled flow finds exactly its nodes and groups exactly its edges by their source.
pub compile_sound :
    (def : FlowDefinition) (flow : CompiledFlow)
    → compile def ≡ some (ok flow)
    → IsValid def × IsCompiled def flow
compile_sound def flow h =
    let (a, x) = compile-ok def flow h in
    let known = group_edges-IsKnownEdge flow.by_id def.edges [] flow.outbound a.joined in
    let (id, n, r, at, wins) =
      explore_sound flow def.edges (assembled-IsClosed def flow a) def.start (explore_fuel def) []
        (def.start ∷ []) false (here, tt) (λ e. cc) x in
    let (i, same) = assembled_listed def flow a id n at in
    (
      record {
        distinct = (index_nodes-HasDistinctIds def.nodes 0 [] flow.by_id a.indexed).0;
        start = contained def flow a def.start a.started;
        sources = λ e j.
            contained def flow a e.from (All-In (IsKnownEdge flow.by_id) def.edges known e j).0;
        targets = λ e j.
            contained def flow a e.to (All-In (IsKnownEdge flow.by_id) def.edges known e j).1;
        terminals = terminal_closed def flow a;
        winner = (n, i, wins, subst (Reach def.edges def.start) (sym same) r);
      },
      assembled-IsCompiled def flow a,
    )

indexed_id :
    (def : FlowDefinition) (by_id : Map NodeId ℕ)
    → index_nodes def.nodes 0 [] ≡ ok by_id
    → (id : NodeId) → HasNode def id
    → contains_key id by_id ≡ true
unfolding contains_key
indexed_id def by_id indexed id (n, i, same) =
    let (j, e) = In-get_elem? def.nodes n i in
    ground (arith, index_nodes-get_elem? def.nodes 0 [] by_id j n indexed e)

no_members : (es : List Edge) → ((e : Edge) → In e es → ⊥) → es ≡ []
no_members [] h = refl
no_members (e ∷ es) h = absurd (h e (inl refl))

no_entry :
    (def : FlowDefinition) (by_id : Map NodeId ℕ) (outbound : Map NodeId (List Edge))
    → group_edges by_id def.edges [] ≡ ok outbound
    → (n : FlowNode) → ((e : Edge) → In e def.edges → e.from ≢ n.id)
    → lookup n.id outbound ≡ none
unfolding lookup
no_entry def by_id outbound joined n ends = elim (Option-cases (lookup n.id outbound)) [
  | inl missing ↦ missing
  | inr (es, at) ↦ absurd (
      group_edges-ne-nil by_id def.edges [] outbound joined (λ k ks got. cc) n.id es at
        (no_members es λ e i.
          let (j, same) =
            leaving-from n.id def.edges e (subst (λ (xs : List Edge). In e xs) (grouped es at) i) in
          ends e j same))
]
  where
    grouped : (es : List Edge) → lookup n.id outbound ≡ some es → es ≡ leaving n.id def.edges
    grouped es at = ground (arith, group_edges-leaving by_id def.edges [] outbound n.id joined)

-- A valid definition gets through every check before the search.
valid_assembled :
    (def : FlowDefinition) → IsValid def → (flow : CompiledFlow) × (assemble def ≡ ok flow)
valid_assembled def v =
    let (by_id, indexed) =
      index_nodes-total def.nodes 0 [] v.distinct (λ n i. unfold lookup in refl) in
    let has_id = λ (id : NodeId) (h : HasNode def id). indexed_id def by_id indexed id h in
    let (outbound, joined) = group_edges-total by_id def.edges [] (
      In-All (IsKnownEdge by_id) def.edges
        λ e i. (has_id e.from (v.sources e i), has_id e.to (v.targets e i))) in
    let flow : CompiledFlow = record { definition = def; by_id = by_id; outbound = outbound } in
    (
      flow,
      assemble-total def flow (record {
        same = refl;
        indexed = indexed;
        started = has_id def.start v.start;
        joined = joined;
        ended = check_terminals-total def.nodes outbound (
            In-All (λ (n : FlowNode). is_terminal n.kind ≡ true → lookup n.id outbound ≡ none)
              def.nodes
              λ n i t. no_entry def by_id outbound joined n (λ e j. v.terminals n e i t j));
      }),
    )

-- Every valid definition is accepted.
pub compile_complete :
    (def : FlowDefinition) → IsValid def → (flow : CompiledFlow) × (compile def ≡ some (ok flow))
unfolding compile verdict
compile_complete def v =
    let (flow, e) = valid_assembled def v in
    let a = assemble-IsAssembled def flow e in
    let (b, x) = assembled-explore def flow a in
    let (n, i, wins, r) = v.winner in
    elim (Bool-cases b) [
      | inl seen ↦ (flow, rw (e, compile, x, seen))
      | inr unseen ↦
          let lost =
            explore_complete flow def.edges (assembled-IsClosed def flow a) def.start
              (explore_fuel def) n.id n (x ∙ ap some unseen) r (assembled_found def flow a n i) in
          absurd (ground (arith, lost))
    ]
