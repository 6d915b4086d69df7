-- ===== src/Flow/Compile/Valid.antt =====
-- What `compile` accepts, crates/geonosis-flow/src/compile.rs, stated on the lists of a definition.
use geonosis.Base.{
  ℕ, zero, suc, Bool, true, false, none, some, List, [], ◌∷◌, ◌≡◌, sym, ap, ◌∙◌, ◌≢◌, inl, inr,
  arith, ok, nat_eq, lookup, contains_key, get_elem?, In, All-In, Option-cases, subst,
}
use geonosis.Flow.Dsl.{NodeId, FlowNode, Edge, FlowDefinition, is_success, is_terminal}
use geonosis.Flow.Compile.{
  CompiledFlow, edges_from, node, index_nodes, group_edges, check_terminals, explore, explore_fuel,
  assemble,
}
use geonosis.Flow.Compile.Index.{HasDistinctIds, index_nodes-get_elem?, index_nodes-lookup}
use geonosis.Flow.Compile.Edges.{
  leaving, IsKnownEdge, group_edges-IsKnownEdge, group_edges-leaving,
  check_terminals-HasClosedTerminals,
}
use geonosis.Flow.Compile.Reach.{Reach, IsKnown, IsClosed, unvisited-nil, explore-total}
use geonosis.Flow.Compile.Explored.{In-leaving}

abbrev pub HasNode : FlowDefinition → NodeId → Type 0
HasNode def id = (n : FlowNode) × In n def.nodes × (n.id ≡ id)

-- The conditions that `compile` enforces.
pub record IsValid (def : FlowDefinition) : Type 0 where
  pub distinct : HasDistinctIds def.nodes
  pub start : HasNode def def.start
  pub sources : (e : Edge) → In e def.edges → HasNode def e.from
  pub targets : (e : Edge) → In e def.edges → HasNode def e.to
  pub terminals :
      (n : FlowNode) (e : Edge)
      → In n def.nodes
      → is_terminal n.kind ≡ true
      → In e def.edges
      → e.from ≢ n.id
  pub winner :
      (n : FlowNode) × In n def.nodes × (is_success n.kind ≡ true) × Reach def.edges def.start n.id

-- What a compiled flow answers.
pub record IsCompiled (def : FlowDefinition) (flow : CompiledFlow) : Type 0 where
  pub definition : flow.definition ≡ def
  pub found : (n : FlowNode) → In n def.nodes → node flow n.id ≡ some n
  pub listed : (id : NodeId) (n : FlowNode) → node flow id ≡ some n → In n def.nodes × (n.id ≡ id)
  pub grouped : (n : NodeId) → edges_from flow.outbound n ≡ leaving n def.edges

pub record IsAssembled (def : FlowDefinition) (flow : CompiledFlow) : Type 0 where
  pub same : flow.definition ≡ def
  pub indexed : index_nodes def.nodes 0 [] ≡ ok flow.by_id
  pub started : contains_key def.start flow.by_id ≡ true
  pub joined : group_edges flow.by_id def.edges [] ≡ ok flow.outbound
  pub ended : check_terminals def.nodes flow.outbound ≡ ok tt

pub assemble-IsAssembled :
    (def : FlowDefinition) (flow : CompiledFlow) → assemble def ≡ ok flow → IsAssembled def flow
unfolding assemble
assemble-IsAssembled def flow h = ground arith

pub assemble-total :
    (def : FlowDefinition) (flow : CompiledFlow) → IsAssembled def flow → assemble def ≡ ok flow
unfolding assemble
assemble-total def flow a = ground (arith, a.same, a.indexed, a.started, a.joined, a.ended)

pub get_elem?-In :
    (nodes : List FlowNode) (j : ℕ) (n : FlowNode) → get_elem? nodes j ≡ some n → In n nodes
get_elem?-In [] j n h = cc
get_elem?-In (x ∷ nodes) zero n h = inl (ground arith)
get_elem?-In (x ∷ nodes) (suc j) n h = inr (get_elem?-In nodes j n h)

pub In-get_elem? :
    (nodes : List FlowNode) (n : FlowNode) → In n nodes → (j : ℕ) × (get_elem? nodes j ≡ some n)
In-get_elem? [] n h = absurd h
In-get_elem? (x ∷ nodes) n (inl e) = (0, ap some e)
In-get_elem? (x ∷ nodes) n (inr h) = let (j, e) = In-get_elem? nodes n h in (suc j, e)

module _ (def : FlowDefinition) (flow : CompiledFlow) (a : IsAssembled def flow) where
  pub assembled_found : (n : FlowNode) → In n def.nodes → node flow n.id ≡ some n
  unfolding node
  assembled_found n i =
      let (j, e) = In-get_elem? def.nodes n i in
      ground (arith, e, a.same, index_nodes-get_elem? def.nodes 0 [] flow.by_id j n a.indexed e)

  -- A key of the index is the id of a node, and the index leads to it.
  indexed_node :
      (id : NodeId) (v : ℕ)
      → lookup id flow.by_id ≡ some v
      → (n : FlowNode) × In n def.nodes × (n.id ≡ id) × (get_elem? def.nodes v ≡ some n)
  unfolding lookup
  indexed_node id v at = elim (index_nodes-lookup def.nodes 0 [] flow.by_id id v a.indexed at) [
    | inl old ↦ absurd (ground arith)
    | inr (j, n, e, got, same) ↦ (
      n,
      get_elem?-In def.nodes j n got,
      same,
      subst (λ (k : ℕ). get_elem? def.nodes k ≡ some n) (omega arith) got,
    )
  ]

  pub assembled_listed :
      (id : NodeId) (n : FlowNode) → node flow id ≡ some n → In n def.nodes × (n.id ≡ id)
  unfolding node
  assembled_listed id n h = elim (Option-cases (lookup id flow.by_id)) [
    | inl missing ↦ absurd (ground arith)
    | inr (v, at) ↦
        let (m, i, same, got) = indexed_node id v at in
        let e : m ≡ n = ground (arith, a.same) in
        (subst (λ (x : FlowNode). In x def.nodes) e i, sym (ap (λ (x : FlowNode). x.id) e) ∙ same)
  ]

  assembled_grouped : (n : NodeId) → edges_from flow.outbound n ≡ leaving n def.edges
  unfolding lookup
  assembled_grouped n = group_edges-leaving flow.by_id def.edges [] flow.outbound n a.joined

  pub contained : (id : NodeId) → contains_key id flow.by_id ≡ true → HasNode def id
  unfolding contains_key
  contained id h = elim (Option-cases (lookup id flow.by_id)) [
    | inl missing ↦ absurd (ground arith)
    | inr (v, at) ↦ let (m, i, same, got) = indexed_node id v at in (m, i, same)
  ]

  pub assembled-IsCompiled : IsCompiled def flow
  assembled-IsCompiled = record {
    definition = a.same;
    found = assembled_found;
    listed = assembled_listed;
    grouped = assembled_grouped;
  }

  pub HasNode-IsKnown : (id : NodeId) → HasNode def id → IsKnown flow id
  HasNode-IsKnown id (n, i, same) =
      (n, subst (λ (k : NodeId). node flow k ≡ some n) same (assembled_found n i))

  pub assembled-IsClosed : IsClosed flow def.edges
  assembled-IsClosed = record {
    grouped = assembled_grouped;
    known = λ e i. HasNode-IsKnown e.to (
        contained e.to
          (All-In (IsKnownEdge flow.by_id) def.edges
            (group_edges-IsKnownEdge flow.by_id def.edges [] flow.outbound a.joined) e i).1);
  }

  pub assembled-explore :
      (b : Bool) × (explore flow (explore_fuel def) [] (def.start ∷ []) false ≡ some b)
  assembled-explore =
      explore-total flow def.edges assembled-IsClosed (explore_fuel def) [] (def.start ∷ []) false
        (HasNode-IsKnown def.start (contained def.start a.started), tt)
        (omega (arith, unvisited-nil def.edges))

  pub terminal_closed :
      (n : FlowNode) (e : Edge)
      → In n def.nodes
      → is_terminal n.kind ≡ true
      → In e def.edges
      → e.from ≢ n.id
  unfolding lookup
  terminal_closed n e i t j same =
      let none_out : lookup n.id flow.outbound ≡ none =
        All-In (λ (m : FlowNode). is_terminal m.kind ≡ true → lookup m.id flow.outbound ≡ none)
          def.nodes (check_terminals-HasClosedTerminals def.nodes flow.outbound a.ended) n i t in
      let nothing : leaving n.id def.edges ≡ [] = ground (arith, assembled_grouped n.id) in
      subst (λ (es : List Edge). In e es) nothing (In-leaving n.id def.edges e j same)
