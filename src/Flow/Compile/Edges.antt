-- ===== src/Flow/Compile/Edges.antt =====
-- The grouped edges of a compiled flow, crates/geonosis-flow/src/compile.rs: `outbound`.
use mathlib.Core.List.{append-nil, append_assoc}
use geonosis.Base.{
  ℕ, true, none, some, List, [], ◌∷◌, ◌++◌, ok, ◌≡◌, refl, ◌∙◌, ◌≢◌, inl, inr, arith, ◌==◌, nat_eq,
  nat_beq_iff, Map, lookup, contains_key, lookup-insert, All, select, Bool-cases, if◌then◌else◌,
  find,
}
use geonosis.Flow.Dsl.{NodeId, FlowNode, Edge, EdgeCondition, is_terminal}
use geonosis.Flow.Json.{Serde}
use geonosis.Flow.State.{FlowContext}
use geonosis.Flow.Compile.{
  CompiledFlow, edges_from, push_edge, group_edges, check_terminals, next_with_guard, choose,
  target,
}

-- The edges out of a node, in the order of the definition.
abbrev pub leaving : NodeId → List Edge → List Edge
leaving n edges = select (λ (e : Edge). e.from == n) edges

abbrev pub IsKnownEdge : Map NodeId ℕ → Edge → Type 0
IsKnownEdge by_id e = (contains_key e.from by_id ≡ true) × (contains_key e.to by_id ≡ true)

group_edges-cons :
    (by_id : Map NodeId ℕ) (e : Edge) (edges : List Edge) (outbound m : Map NodeId (List Edge))
    → group_edges by_id (e ∷ edges) outbound ≡ ok m
    → IsKnownEdge by_id e × (group_edges by_id edges (push_edge e outbound) ≡ ok m)
unfolding group_edges
group_edges-cons by_id e edges outbound m h = ground arith

-- Every edge that was grouped joins indexed nodes.
pub group_edges-IsKnownEdge :
    (by_id : Map NodeId ℕ) (edges : List Edge) (outbound m : Map NodeId (List Edge))
    → group_edges by_id edges outbound ≡ ok m
    → All (IsKnownEdge by_id) edges
group_edges-IsKnownEdge by_id [] outbound m h = tt
group_edges-IsKnownEdge by_id (e ∷ edges) outbound m h =
    let step = group_edges-cons by_id e edges outbound m h in
    (step.0, group_edges-IsKnownEdge by_id edges (push_edge e outbound) m step.1)

pub group_edges-total :
    (by_id : Map NodeId ℕ) (edges : List Edge) (outbound : Map NodeId (List Edge))
    → All (IsKnownEdge by_id) edges
    → (m : Map NodeId (List Edge)) × (group_edges by_id edges outbound ≡ ok m)
unfolding group_edges
group_edges-total by_id [] outbound k = (outbound, refl)
group_edges-total by_id (e ∷ edges) outbound k =
    rw (k.0.0, k.0.1) (group_edges-total by_id edges (push_edge e outbound) k.1)

edges_from-push_edge :
    (e : Edge) (outbound : Map NodeId (List Edge)) (n : NodeId)
    → edges_from (push_edge e outbound) n
      ≡ (if e.from == n then edges_from outbound n ++ e ∷ [] else edges_from outbound n)
unfolding push_edge
edges_from-push_edge e outbound n = ground (
  arith,
  lookup-insert e.from n (edges_from outbound e.from ++ e ∷ []) outbound,
  nat_beq_iff e.from n,
)

-- Grouping keeps the edges of a node, and their order.
pub group_edges-leaving :
    (by_id : Map NodeId ℕ) (edges : List Edge) (outbound m : Map NodeId (List Edge)) (n : NodeId)
    → group_edges by_id edges outbound ≡ ok m
    → edges_from m n ≡ edges_from outbound n ++ leaving n edges
unfolding select group_edges
group_edges-leaving by_id [] outbound m n h = ground (arith, append-nil (edges_from outbound n))
group_edges-leaving by_id (e ∷ edges) outbound m n h =
    let step = group_edges-cons by_id e edges outbound m h in
    let rest = group_edges-leaving by_id edges (push_edge e outbound) m n step.1 in
    elim (Bool-cases (e.from == n)) [
      | inl hit ↦
          rest
          ∙ ground (
            arith,
            edges_from-push_edge e outbound n,
            append_assoc (edges_from outbound n) (e ∷ []) (leaving n edges),
          )
      | inr miss ↦ rest ∙ ground (arith, edges_from-push_edge e outbound n)
    ]

append-ne-nil : (xs : List Edge) (e : Edge) → xs ++ e ∷ [] ≢ []
append-ne-nil [] e h = cc
append-ne-nil (x ∷ xs) e h = cc

-- A node has an entry only if an edge leaves it.
pub group_edges-ne-nil :
    (by_id : Map NodeId ℕ) (edges : List Edge) (outbound m : Map NodeId (List Edge))
    → group_edges by_id edges outbound ≡ ok m
    → ((n : NodeId) (es : List Edge) → lookup n outbound ≡ some es → es ≢ [])
    → (n : NodeId) (es : List Edge) → lookup n m ≡ some es
    → es ≢ []
unfolding group_edges
group_edges-ne-nil by_id [] outbound m h inv n es got = inv n es (ground arith)
group_edges-ne-nil by_id (e ∷ edges) outbound m h inv n es got =
    group_edges-ne-nil by_id edges (push_edge e outbound) m
      (group_edges-cons by_id e edges outbound m h).1
      (λ k ks at.
        unfold push_edge in
        ground (
          arith,
          inv k ks,
          lookup-insert e.from k (edges_from outbound e.from ++ e ∷ []) outbound,
          append-ne-nil (edges_from outbound e.from) e,
        ))
      n es got

-- No node is a terminal with an edge out of it.
abbrev pub HasClosedTerminals : Map NodeId (List Edge) → List FlowNode → Type 0
HasClosedTerminals outbound =
    All (λ (n : FlowNode). is_terminal n.kind ≡ true → lookup n.id outbound ≡ none)

pub check_terminals-HasClosedTerminals :
    (nodes : List FlowNode) (outbound : Map NodeId (List Edge))
    → check_terminals nodes outbound ≡ ok tt
    → HasClosedTerminals outbound nodes
unfolding check_terminals contains_key
check_terminals-HasClosedTerminals [] outbound h = tt
check_terminals-HasClosedTerminals (n ∷ nodes) outbound h =
    (ground arith, check_terminals-HasClosedTerminals nodes outbound (ground arith))

pub check_terminals-total :
    (nodes : List FlowNode) (outbound : Map NodeId (List Edge))
    → HasClosedTerminals outbound nodes
    → check_terminals nodes outbound ≡ ok tt
unfolding check_terminals contains_key
check_terminals-total [] outbound h = refl
check_terminals-total (n ∷ nodes) outbound h =
    ground (arith, h.0, check_terminals-total nodes outbound h.1)

-- The edge selection is a search among the edges out of the node.
pub next_with_guard-edges_from :
    (serde : Serde) (flow : CompiledFlow) (from : NodeId) (on : EdgeCondition) (ctx : FlowContext)
    → next_with_guard serde flow from on ctx
      ≡ target (choose serde ctx on (edges_from flow.outbound from))
unfolding next_with_guard choose find
next_with_guard-edges_from serde flow from on ctx = ground arith
